-- ===== src/Payments/Notices.antt =====
-- The messages on `sepay.webhook.event`:
-- payment-service/src/events/hook_consumers/sepay.hook.consumer.js.
use metro_backend.Prelude.{
  not, ℕ, ◌==◌, Bool, true, false, ◌&&◌, ◌||◌, String, str_eq, Option, none, some, List, [], ◌∷◌,
  ◌++◌, map, ok, if◌then◌else◌, Text, codes, text_eq, length, ◌>>◌,
}
use metro_backend.Prelude.Trim.{trim}
use metro_backend.Sepay.{Payload, Resource, is_sepay_bank_webhook, or_text, or_zero, or_empty}
use metro_backend.Sepay.Content.{ticket_id_in, is_hex, lower, uuid_format, or_else}
use metro_backend.Payments.{
  PaymentStatus, completed, Payment, LogType, payment_completed, Store, Handler, is_completed,
  write, publish, find_payment, has_id_text, of_ticket, update_payments,
}

-- The id of a payment is empty where the message has none; an amount that is no number is `none`.
pub record Normalized : Type 0 where
  pub status : Text
  pub payment_id : Text
  pub ticket_id : Option Text
  pub amount : Option ℕ

abbrev starts_with : Text → Text → Bool
starts_with [] t = true
starts_with (c ∷ cs) [] = false
starts_with (c ∷ cs) (d ∷ ds) = c == d && starts_with cs ds

-- `text.includes(word)`.
unfoldable pub includes_text : Text → Text → Bool
includes_text word [] = starts_with word []
includes_text word (c ∷ cs) = starts_with word (c ∷ cs) || includes_text word cs

-- `raw.transferType === 'in'`.
abbrev pub is_incoming : Option String → Bool
is_incoming none = false
is_incoming (some t) = str_eq t "in"

unfoldable pub normalize_sepay_bank_payload : Payload → Normalized
normalize_sepay_bank_payload raw = record {
  status = if is_incoming raw.transfer_type then codes "completed" else codes "pending";
  payment_id = [];
  ticket_id = ticket_id_in (or_empty raw.content);
  amount = some (or_zero raw.transfer_amount);
}

abbrev no_resource : Resource
no_resource = record { id = ""; status = []; description = []; custom_id = []; amount = none }

-- `raw?.resource || {}`.
abbrev resource_of : Option Resource → Resource
resource_of none = no_resource
resource_of (some r) = r

abbrev status_by_event : Payload → Text
status_by_event raw =
    if includes_text (codes "COMPLETED") raw.event_type
    then codes "completed"
    else if includes_text (codes "DENIED") raw.event_type
    then codes "denied"
    else raw.status

abbrev normalize_structured : Payload → Resource → Normalized
normalize_structured raw resource = record {
  status = or_text resource.status (status_by_event raw);
  payment_id = trim (or_text resource.description (or_text resource.custom_id raw.custom_id));
  ticket_id = none;
  amount = resource.amount;
}

abbrev pub is_empty : Text → Bool
is_empty [] = true
is_empty (c ∷ cs) = false

-- A bank transfer, the flat format, or an event of the older webhook.
unfoldable pub normalize_payload : Payload → Normalized
normalize_payload raw =
    if is_sepay_bank_webhook raw
    then normalize_sepay_bank_payload raw
    else if is_empty (or_text raw.status raw.description)
    then normalize_structured raw (resource_of raw.resource)
    else record {
      status = raw.status;
      payment_id = trim raw.description;
      ticket_id = none;
      amount = raw.amount;
    }

abbrev pub all_hex : Text → Bool
all_hex [] = true
all_hex (c ∷ cs) = is_hex c && all_hex cs

-- The row of the ticket by its id as it stands, or with the dashes put in.
unfoldable pub payment_of_ticket : Text → List Payment → Option Payment
payment_of_ticket id rows =
    or_else (find_payment (of_ticket id) rows) (
      if length id == 32 && all_hex id
      then find_payment (of_ticket (uuid_format id)) rows
      else none)

abbrev payment_of_ticket? : Option Text → List Payment → Option Payment
payment_of_ticket? none rows = none
payment_of_ticket? (some id) rows = payment_of_ticket id rows

unfoldable pub payment_named : Normalized → List Payment → Option Payment
payment_named n rows =
    if is_empty n.payment_id
    then payment_of_ticket? n.ticket_id rows
    else find_payment (has_id_text n.payment_id) rows

-- `Number(payment.paymentAmount) !== amount`.
abbrev pub same_amount : ℕ → Option ℕ → Bool
same_amount expected none = false
same_amount expected (some n) = expected == n

abbrev pub with_payment : (Payment → Payment) → String → Store → Store
with_payment f id s = record s { payments = update_payments id f s.payments }

abbrev pub as_completed : ℕ → Payment → Payment
as_completed now p = record p { payment_status = completed; payment_date = some now }

abbrev pub with_transaction : Payment → Store → Store
with_transaction p s = record s {
  transactions =
      s.transactions
      ++ record {
        payment_id = p.payment_id;
        transaction_amount = p.payment_amount;
        transaction_status = completed;
      }
        ∷ [];
}

abbrev pub with_log : Payment → LogType → PaymentStatus → Store → Store
with_log p log_type status s = record s {
  payment_logs =
      s.payment_logs
      ++ record {
        payment_id = p.payment_id;
        log_type = log_type;
        log_status = status;
        log_date = s.now;
      }
        ∷ [];
}

-- The three writes and the event, one after the other and not in one database transaction. The
-- amount is the payment's: the guard has compared the two.
unfoldable pub complete : Payment → Handler (Unit {0})
complete p = do
  write (λ s. with_payment (as_completed s.now) p.payment_id s)
  write (with_transaction p)
  write (with_log p LogType.webhook completed)
  publish (payment_completed p.payment_id p.ticket_id p.passenger_id p.payment_amount)

-- The three guards: the status, the amount, and that it is not completed already.
unfoldable pub does_settle : Normalized → Payment → Bool
does_settle n p =
    text_eq (map lower n.status) (codes "completed")
    && (same_amount p.payment_amount n.amount && not (is_completed p.payment_status))

unfoldable pub settle_payment : Normalized → Option Payment → Handler (Unit {0})
settle_payment n none s = (ok tt, s)
settle_payment n (some p) s = if does_settle n p then complete p s else (ok tt, s)

unfoldable pub handle_webhook_payload : Payload → Handler (Unit {0})
handle_webhook_payload raw s =
    settle_payment (normalize_payload raw) (payment_named (normalize_payload raw) s.payments) s
