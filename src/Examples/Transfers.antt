-- ===== src/Examples/Transfers.antt =====
-- A bank transfer of 25,000 dong for a ticket, through the services.
use metro_backend.Prelude.{
  ◌+◌, ◌*◌, ◌≡◌, refl, String, none, some, [], ◌∷◌, ◌++◌, Bool, true, false, codes, arith, ok, err,
}
use metro_backend.Sepay.{Payload, is_sepay_bank_webhook}
use metro_backend.Sepay.Content.{words, uuid, plain, ticket_id_in, is_hex, uuid_format}
use metro_backend.Sepay.Content.Match.{Fits}
use metro_backend.Sepay.Content.Named.{ticket_id_in-uuid}
use metro_backend.Sepay.Content.Dashes.{without_dashes, uuid_format-without_dashes}
use metro_backend.Payments.{
  Payment, PaymentStatus, Method, Store, Event, payment_completed, publish_error, db_error,
  find_payment, has_id,
}
use metro_backend.Payments.Notices.{as_completed, handle_webhook_payload}
use metro_backend.Payments.Vnpay.{VnpayQuery, latest_vnpay, handle_vnpay_return, handle_vnpay_ipn}
use metro_backend.Payments.Vnpay.Twice.{vnpay-twice}
use metro_backend.Payments.Cancelled.{TicketCancelled, handle_ticket_cancelled}
use metro_backend.Payments.Ledger.{received, entries, published}
use metro_backend.Payments.Sound.{AllSound}
use metro_backend.Payments.AnyOrder.{noticed, around, serve_all}
use metro_backend.Payments.Always.{IsSettled, serve_all-IsSound, serve_all-IsSettled}
use metro_backend.Payments.Paid.{dashed, IsTransfer, IsWaiting, settled_store, transfer-completes}
use metro_backend.Payments.Lost.{transfer-lost}
use metro_backend.Payments.Refunds.{IsLeft, handle_ticket_cancelled-refused}
use metro_backend.Webhook.{
  Hub, HookStatus, KeyData, bank_key, event_key, find_hook, fits_schema, is_processed,
}
use metro_backend.Webhook.Process.{
  handle_webhook, is_accepted, validate_event_structure, retry_failed_webhooks,
}
use metro_backend.Webhook.Once.{sent, rows}
use metro_backend.Webhook.Deliveries.{Arrival, delivered}
use metro_backend.Webhook.Deliveries as Deliveries
use metro_backend.Webhook.Fresh.{IsFresh, handle_webhook-publishes, handle_webhook-loses}
use metro_backend.Webhook.Retry.{retry_failed_webhooks-topic}
use metro_backend.Ticket.{Ticket, TicketType, Status}
use metro_backend.Ticket.Events.{process_payment_ready_event}
use metro_backend.Ticket.Payment.Ready.{process_payment_ready_event-same}
use metro_backend.Pipeline.{Setting, Line}
use metro_backend.Examples.{booked, table}

abbrev ticket_id : String
ticket_id = "3f2b8c1a-0d4e-4f6a-9b7c-1e2d3c4b5a69"

abbrev transfer : Payload
transfer = record {
  id = "92704";
  gateway = some "VCB";
  transfer_type = some "in";
  content = some (words ++ codes ticket_id);
  transfer_amount = some 25_000;
  reference_code = "FT1";
  transaction_date = "2025-09-01";
  status = [];
  description = [];
  amount = none;
  event_type = [];
  resource_type = "";
  custom_id = [];
  resource = none;
}

abbrev order : Payment
order = record {
  payment_id = "PAY";
  ticket_id = ticket_id;
  passenger_id = "P1";
  payment_amount = 25_000;
  payment_method = Method.sepay;
  payment_status = PaymentStatus.pending;
  payment_date = none;
}

abbrev store : Bool → Store
store up = record {
  now = 1_000;
  writes_left = 3;
  broker_up = up;
  payments = order ∷ [];
  transactions = [];
  payment_logs = [];
  events = [];
}

abbrev hub : Bool → Hub
hub up = record {
  now = 1_000;
  redis_up = true;
  broker_up = up;
  writes_left = 4;
  casts = λ raw. true;
  keys = [];
  hooks = [];
  topic = [];
}

abbrev hash : KeyData → String
hash (bank_key id amount reference stamp) = id
hash (event_key id event resource stamp) = id

id-Fits : Fits uuid (codes ticket_id)
unfolding is_hex
id-Fits = ground arith

waiting : (up : Bool) → IsWaiting order (store up)
unfolding find_payment without_dashes
waiting up = record { is_uuid = id-Fits; mine = refl; nobody = refl; waits = refl }

content-appended : words ++ codes ticket_id ≡ [] ++ (words ++ (codes ticket_id ++ []))
content-appended = refl

transferred : IsTransfer order transfer
transferred = record {
  content = words ++ codes ticket_id;
  incoming = refl;
  gateway = "VCB";
  bank = refl;
  carries = refl;
  exact = refl;
  describes = dashed [] [] tt content-appended;
}

sound : (up : Bool) → AllSound "PAY" (store up)
unfolding received entries published find_payment
sound up = record { sum = omega arith; once = omega arith; told = omega arith; unique = (refl, tt) }

fresh : (up : Bool) → IsFresh hash transfer "" (hub up)
unfolding is_accepted validate_event_structure is_sepay_bank_webhook fits_schema find_hook
    is_processed
fresh up = record {
  accepted = refl;
  fits = refl;
  new = refl;
  key_free = refl;
  unseen = refl;
  writes = omega arith;
}

ticket_id_in-uuid_example :
    ticket_id_in (codes "FT25 " ++ (words ++ (codes ticket_id ++ codes " GD")))
    ≡ some (codes ticket_id)
ticket_id_in-uuid_example =
    ticket_id_in-uuid (codes "FT25 ") (codes ticket_id) (codes " GD") (ground arith) id-Fits

uuid_format-without_dashes_example :
    Fits plain (without_dashes (codes ticket_id))
    × (uuid_format (without_dashes (codes ticket_id)) ≡ codes ticket_id)
uuid_format-without_dashes_example = uuid_format-without_dashes (codes ticket_id) id-Fits

transfer-completes_example :
    handle_webhook_payload transfer (store true) ≡ (ok tt, settled_store order 0 (store true))
transfer-completes_example =
    transfer-completes order (store true) transfer (waiting true) transferred 0 refl refl

serve_all-IsSound_example :
    AllSound "PAY"
      (serve_all (noticed transfer ∷ around 3 true 2_000 ∷ noticed transfer ∷ []) (store false))
serve_all-IsSound_example =
    serve_all-IsSound "PAY" (noticed transfer ∷ around 3 true 2_000 ∷ noticed transfer ∷ [])
      (store false) (sound false)

paid_store : Store
paid_store = record (store true) {
  payments = record order { payment_status = PaymentStatus.completed } ∷ [];
}

paid-IsSound : AllSound "PAY" paid_store
unfolding paid_store received entries published find_payment
paid-IsSound = record {
  sum = omega arith;
  once = omega arith;
  told = omega arith;
  unique = (refl, tt);
}

abbrev paid_row : Payment
paid_row = record order { payment_status = PaymentStatus.completed }

paid-IsSettled : IsSettled "PAY" 0 paid_row paid_store
unfolding paid_store published find_payment
paid-IsSettled = record { found = refl; done = refl; told = refl }

serve_all-IsSettled_example :
    IsSettled "PAY" 0 paid_row (serve_all (noticed transfer ∷ []) paid_store)
serve_all-IsSettled_example =
    serve_all-IsSettled "PAY" 0 paid_row (noticed transfer ∷ []) paid_store paid-IsSound
      paid-IsSettled

transfer-lost_example :
    ((handle_webhook_payload transfer (store false)).0 ≡ err publish_error)
    × IsSettled "PAY" (published "PAY" []) (as_completed 1_000 order) (
        serve_all
          (around 3 true 2_000 ∷ noticed transfer ∷ [])
          (handle_webhook_payload transfer (store false)).1)
transfer-lost_example =
    transfer-lost order (store false) transfer 0 (around 3 true 2_000 ∷ noticed transfer ∷ [])
      (waiting false) transferred (sound false) refl refl

cancellation : TicketCancelled
cancellation = record { ticket_id = ticket_id; payment_id = "PAY" }

order-found : find_payment (has_id cancellation.payment_id) (store true).payments ≡ some order
unfolding find_payment cancellation
order-found = refl

handle_ticket_cancelled-refused_example :
    ((handle_ticket_cancelled cancellation (store true)).0 ≡ err db_error)
    × IsLeft "PAY" (store true) (handle_ticket_cancelled cancellation (store true)).1
handle_ticket_cancelled-refused_example =
    handle_ticket_cancelled-refused "PAY" cancellation (store true) order order-found

handle_webhook-publishes_example :
    ((handle_webhook hash transfer "" (hub true)).0 ≡ 200)
    × ((handle_webhook hash transfer "" (hub true)).1.topic ≡ transfer ∷ [])
handle_webhook-publishes_example =
    handle_webhook-publishes hash transfer "" (hub true) (fresh true) refl

handle_webhook-loses_example :
    ((handle_webhook hash transfer "" (hub false)).0 ≡ 200)
    × (sent "92704"
          (Deliveries.serve_all hash
            (delivered transfer "" ∷ [])
            (handle_webhook hash transfer "" (hub false)).1).topic
        ≡ sent "92704" [])
handle_webhook-loses_example =
    handle_webhook-loses hash transfer "" (hub false) (fresh false) (delivered transfer "" ∷ [])
      refl

failed_hub : Hub
failed_hub = record (hub true) {
  hooks =
      record {
        webhook_id = "92704";
        idempotency_key = "92704";
        raw_payload = transfer;
        status = HookStatus.failed;
        processing_attempts = 1;
        last_processed_at = 500;
        events_published = [];
      }
      ∷ [];
}

failed-stored : rows "92704" failed_hub.hooks ≡ 1
unfolding failed_hub rows find_hook
failed-stored = refl

retry_failed_webhooks-topic_example :
    (retry_failed_webhooks hash 10 failed_hub).topic ≡ failed_hub.topic
unfolding failed_hub
retry_failed_webhooks-topic_example =
    retry_failed_webhooks-topic hash 10 failed_hub (failed-stored, tt)

line : Line
line = record {
  hub = hub true;
  store = store true;
  tickets = table (booked ticket_id TicketType.oneway Status.pending_payment);
}

abbrev started : Setting
started = record { line = line; elsewhere = [] }

-- A payment by PayPal, and the delivery of a webhook.
abbrev by_paypal : Event
by_paypal = payment_completed "PP" ticket_id "P1" 500

abbrev paid_elsewhere : Line
paid_elsewhere = record line { store = record line.store { events = by_paypal ∷ [] } }

abbrev arrived : Setting
arrived = record {
  line = record paid_elsewhere { hub = Deliveries.serve hash (delivered transfer "") line.hub };
  elsewhere = by_paypal ∷ [];
}

abbrev by_vnpay : Payment
by_vnpay = record order { payment_method = Method.vnpay; payment_date = some 900 }

abbrev vnpay_store : Store
vnpay_store = record (store true) { writes_left = 6; payments = order ∷ by_vnpay ∷ [] }

latest-found : latest_vnpay vnpay_store.payments ≡ some by_vnpay
unfolding latest_vnpay
latest-found = refl

asked : VnpayQuery
asked = record { txn_ref = "VNP1"; amount = 25_000 }

vnpay-twice_example :
    received "PAY"
      (handle_vnpay_ipn
        (λ q. true)
        asked
        (handle_vnpay_return (λ q. true) asked vnpay_store).1).1.transactions
    ≡ received "PAY" [] + 2 * 25_000
vnpay-twice_example =
    vnpay-twice (λ q. true) (λ q. true) asked asked vnpay_store by_vnpay refl refl latest-found
      (omega arith)

process_payment_ready_event-same_example :
    process_payment_ready_event ticket_id (table (booked ticket_id TicketType.oneway Status.active))
    ≡ (ok tt, table (booked ticket_id TicketType.oneway Status.active))
process_payment_ready_event-same_example =
    process_payment_ready_event-same ticket_id
      (table (booked ticket_id TicketType.oneway Status.active))
