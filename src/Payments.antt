-- ===== src/Payments.antt =====
-- payment-service: its tables (src/models/payment.model.js, transaction.model.js and
-- paymentLog.model.js), the events that it publishes, and the database and the broker, which can
-- fail at any statement: the database takes `writes_left` more writes, and a publish fails while the
-- broker is down. The raw answers of the payment gateways, which nothing here reads, are left out.
pub mod Notices
pub mod Ledger
pub mod Sound
pub mod Lost
pub mod Paid
pub mod Always
pub mod Refunds
pub mod AnyOrder
pub mod Orders
pub mod Cancelled
pub mod Vnpay
use metro_backend.Prelude.{
  ℕ, ◌-◌, ◌==◌, ◌+◌, Bool, true, false, String, str_eq, Option, none, some, List, [], ◌∷◌, ◌++◌, ok,
  err, if◌then◌else◌, Action, Text, codes, text_eq,
}

pub data PaymentStatus : Type 0 where
  pending approved completed failed : PaymentStatus

pub data Method : Type 0 where
  paypal vnpay card sepay : Method

pub record Payment : Type 0 where
  pub payment_id : String
  pub ticket_id : String
  pub passenger_id : String
  pub payment_amount : ℕ
  pub payment_method : Method
  pub payment_status : PaymentStatus
  pub payment_date : Option ℕ

pub record Transaction : Type 0 where
  pub payment_id : String
  pub transaction_amount : ℕ
  pub transaction_status : PaymentStatus

pub data LogType : Type 0 where
  payment capture webhook refund chargeback : LogType

pub record PaymentLog : Type 0 where
  pub payment_id : String
  pub log_type : LogType
  pub log_status : PaymentStatus
  pub log_date : ℕ

-- The messages on `payment.completed`, `ticket.payment_ready` and `payment.cancelled`.
pub data Event : Type 0 where
  payment_completed : String → String → String → ℕ → Event
  ticket_payment_ready : String → String → Event
  payment_cancelled : String → String → Event

pub record Store : Type 0 where
  pub now : ℕ
  pub writes_left : ℕ
  pub broker_up : Bool
  pub payments : List Payment
  pub transactions : List Transaction
  pub payment_logs : List PaymentLog
  pub events : List Event

pub data Failure : Type 0 where
  db_error publish_error invalid_payment_data : Failure

abbrev pub Handler : Type 0 → Type 0
Handler = Action Store Failure

abbrev pub is_completed : PaymentStatus → Bool
is_completed pending = false
is_completed approved = false
is_completed completed = true
is_completed failed = false

-- One statement that writes: it is done, or fails and changes nothing.
unfoldable pub write : (Store → Store) → Handler (Unit {0})
write f s =
    if s.writes_left == 0
    then (err db_error, s)
    else (ok tt, f (record s { writes_left = s.writes_left - 1 }))

unfoldable pub publish : Event → Handler (Unit {0})
publish event s =
    if s.broker_up
    then (ok tt, record s { events = s.events ++ event ∷ [] })
    else (err publish_error, s)

-- `Payment.findOne`: the first row that the condition holds of.
unfoldable pub find_payment : (Payment → Bool) → List Payment → Option Payment
find_payment p [] = none
find_payment p (r ∷ rs) = let rest = find_payment p rs in if p r then some r else rest

-- `where: { paymentId }` and `where: { ticketId }`, for an id that stands in a message as a text.
abbrev pub has_id : String → Payment → Bool
has_id id p = str_eq p.payment_id id

abbrev pub has_id_text : Text → Payment → Bool
has_id_text id p = text_eq (codes p.payment_id) id

abbrev pub of_ticket : Text → Payment → Bool
of_ticket id p = text_eq (codes p.ticket_id) id

-- `Payment.update(…, { where: { paymentId } })`.
unfoldable pub update_payments : String → (Payment → Payment) → List Payment → List Payment
update_payments id f [] = []
update_payments id f (p ∷ ps) =
    let rest = update_payments id f ps in if has_id id p then f p ∷ rest else p ∷ rest
