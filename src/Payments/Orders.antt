-- ===== src/Payments/Orders.antt =====
-- A payment order by SePay: payment-service/src/strategies/payment/SepayPaymentStrategy.js and
-- createQr of payment-service/src/services/sepay.service.js. The two variables of the environment
-- that name the bank account are set, and the address of the picture is built without an error.
use metro_backend.Prelude.{
  ℕ, ◌==◌, ltb, Bool, true, not, ◌&&◌, ◌||◌, String, str_eq, Option, none, some, [], ◌∷◌, ◌++◌, ok,
  err, if◌then◌else◌, Text, codes, ◌>>=◌, ◌>>◌, pure, require, continue, Result,
}
use metro_backend.Sepay.{or_text, is_some}
use metro_backend.Sepay.Content.{words}
use metro_backend.Payments.{
  pending, Payment, sepay, LogType, ticket_payment_ready, Store, Handler, Failure,
  invalid_payment_data, db_error, write, publish, find_payment, has_id,
}
use metro_backend.Payments.Notices.{with_payment, with_log}

-- What `ticket.created` hands to the strategy; the currency is `none` where it is left out.
pub record PaymentData : Type 0 where
  pub payment_id : String
  pub ticket_id : String
  pub passenger_id : String
  pub amount : ℕ
  pub currency : Option String
  pub order_description : Text

abbrev is_vnd : Option String → Bool
is_vnd none = true
is_vnd (some c) = str_eq c "" || str_eq c "VND"

unfoldable pub validate_payment_data : PaymentData → Bool
validate_payment_data d =
    not (
      str_eq d.payment_id ""
      || (str_eq d.ticket_id "" || (str_eq d.passenger_id "" || d.amount == 0)))
    && is_vnd d.currency

abbrev pub order_row : PaymentData → ℕ → Payment
order_row d now = record {
  payment_id = d.payment_id;
  ticket_id = d.ticket_id;
  passenger_id = d.passenger_id;
  payment_amount = d.amount;
  payment_method = sepay;
  payment_status = pending;
  payment_date = some now;
}

-- `Payment.create` in a transaction: the key must be new, and the amount has at most eight digits
-- before the point.
unfoldable pub create_payment : Payment → Handler (Unit {0})
create_payment p s =
    if is_some (find_payment (has_id p.payment_id) s.payments)
    then (err db_error, s)
    else if not (ltb p.payment_amount 100_000_000)
    then (err db_error, s)
    else write (λ w. record w { payments = w.payments ++ p ∷ [] }) s

-- `trx.rollback()`: the tables are as they were.
abbrev rolled_back : Store → Result Failure (Unit {0}) × Store → Result Failure (Unit {0}) × Store
rolled_back s (ok tt, after) = (ok tt, after)
rolled_back s (err e, after) = (err e, record s { writes_left = after.writes_left })

unfoldable pub create_order : Payment → Handler (Unit {0})
create_order p = do create_payment p; write (with_log p LogType.payment pending)

-- The description that the payer's order carries.
unfoldable pub create_qr : PaymentData → Text → Handler Text
create_qr d description s =
    continue (rolled_back s (create_order (order_row d s.now) s))
      (λ done. pure (or_text description (codes d.payment_id)))

-- A failure of the last event is logged only.
abbrev swallowed : Result Failure (Unit {0}) × Store → Result Failure (Unit {0}) × Store
swallowed (r, s) = (ok tt, s)

-- `orderDescription || \`Payment for ticket ${ticketId}\``.
abbrev pub description_of : PaymentData → Text
description_of d = or_text d.order_description (words ++ codes d.ticket_id)

abbrev pub as_ordered : Payment → Payment
as_ordered p = record p { payment_method = sepay; payment_status = pending }

unfoldable pub process_payment : PaymentData → Handler Text
process_payment d = do
  require (validate_payment_data d) invalid_payment_data
  description ← create_qr d (description_of d)
  write (with_payment as_ordered d.payment_id)
  λ s. swallowed (publish (ticket_payment_ready d.ticket_id d.payment_id) s)
  pure description
