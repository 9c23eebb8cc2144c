-- ===== src/Payments/Cancelled.antt =====
-- The messages on `ticket.cancelled`: handleTicketCancelled of
-- payment-service/src/events/ticket.consumer.js. The statuses and types that it writes are texts
-- to the columns, and a column of the type ENUM refuses a text that is not one of its values.
use metro_backend.Prelude.{
  String, str_eq, Option, none, some, if◌then◌else◌, ◌>>=◌, ◌>>◌, pure, or_throw,
}
use metro_backend.Payments.{
  PaymentStatus, pending, approved, completed, failed, Payment, LogType, payment, capture, webhook,
  refund, chargeback, payment_cancelled, Handler, db_error, write, publish, find_payment, has_id,
}
use metro_backend.Payments.Notices.{with_payment, with_log}

pub record TicketCancelled : Type 0 where
  pub ticket_id : String
  pub payment_id : String

-- ENUM('PENDING', 'APPROVED', 'COMPLETED', 'FAILED').
unfoldable pub payment_status_column : String → Option PaymentStatus
payment_status_column name =
    if str_eq name "PENDING"
    then some pending
    else if str_eq name "APPROVED"
    then some approved
    else if str_eq name "COMPLETED"
    then some completed
    else if str_eq name "FAILED"
    then some failed
    else none

-- ENUM('PAYMENT', 'CAPTURE', 'WEBHOOK', 'REFUND', 'CHARGEBACK').
unfoldable pub log_type_column : String → Option LogType
log_type_column name =
    if str_eq name "PAYMENT"
    then some payment
    else if str_eq name "CAPTURE"
    then some capture
    else if str_eq name "WEBHOOK"
    then some webhook
    else if str_eq name "REFUND"
    then some refund
    else if str_eq name "CHARGEBACK"
    then some chargeback
    else none

-- The status that the handler gives the row.
abbrev pub cancelled_status : PaymentStatus → String
cancelled_status pending = "CANCELLED"
cancelled_status approved = "APPROVED"
cancelled_status completed = "REFUND_PENDING"
cancelled_status failed = "FAILED"

abbrev pub with_status : PaymentStatus → Payment → Payment
with_status status p = record p { payment_status = status }

unfoldable pub cancel_payment : TicketCancelled → Payment → Handler (Unit {0})
cancel_payment event p = do
  status ← or_throw (payment_status_column (cancelled_status p.payment_status)) db_error
  write (with_payment (with_status status) p.payment_id)
  log_type ← or_throw (log_type_column "CANCELLATION") db_error
  write (with_log p log_type status)
  publish (payment_cancelled event.payment_id event.ticket_id)

abbrev cancel_found : TicketCancelled → Option Payment → Handler (Unit {0})
cancel_found event none = pure tt
cancel_found event (some p) = cancel_payment event p

unfoldable pub handle_ticket_cancelled : TicketCancelled → Handler (Unit {0})
handle_ticket_cancelled event s =
    cancel_found event (find_payment (has_id event.payment_id) s.payments) s
