-- ===== src/Payments/Vnpay.antt =====
-- The answers of VNPay, to the browser and to the server: payment-service/src/services/
-- payment.service.js. The verification of a query, which a library does, is a parameter.
pub mod Twice
use metro_backend.Prelude.{
  ℕ, Bool, true, false, String, Option, none, some, List, [], ◌∷◌, ok, if◌then◌else◌, leb, ◌>>=◌,
  ◌>>◌, pure,
}
use metro_backend.Payments.{
  Payment, PaymentStatus, completed, failed, Method, paypal, vnpay, card, sepay, LogType, Store,
  Handler, write,
}
use metro_backend.Payments.Notices.{with_payment, with_transaction, with_log}

-- The reference of the transaction, and the amount, which the handlers do not read.
pub record VnpayQuery : Type 0 where
  pub txn_ref : String
  pub amount : ℕ

abbrev pub is_vnpay : Payment → Bool
is_vnpay p = elim p.payment_method [ Method.vnpay ↦ true | _ ↦ false ]

-- `ORDER BY "paymentDate" DESC`: a row without a date comes first.
abbrev pub comes_first : Option ℕ → Option ℕ → Bool
comes_first none date = true
comes_first (some a) none = false
comes_first (some a) (some b) = leb b a

abbrev pub newest : Payment → Option Payment → Option Payment
newest p none = some p
newest p (some q) = if comes_first p.payment_date q.payment_date then some p else some q

-- `Payment.findOne({ where: { paymentMethod: 'vnpay' }, order: [['paymentDate', 'DESC']] })`.
unfoldable pub latest_vnpay : List Payment → Option Payment
latest_vnpay [] = none
latest_vnpay (p ∷ ps) = let rest = latest_vnpay ps in if is_vnpay p then newest p rest else rest

pub data VnpayAnswer : Type 0 where
  payment_not_found : VnpayAnswer
  answered : Bool → VnpayAnswer

abbrev pub vnpay_status : Bool → PaymentStatus
vnpay_status true = completed
vnpay_status false = failed

abbrev pub with_outcome : Bool → Payment → Payment
with_outcome success p = record p { payment_status = vnpay_status success }

abbrev enter_if : Bool → Payment → Handler (Unit {0})
enter_if true p = write (with_transaction p)
enter_if false p = pure tt

unfoldable pub record_outcome : Bool → Payment → Handler VnpayAnswer
record_outcome success p = do
  write (with_payment (with_outcome success) p.payment_id)
  write (with_log p LogType.payment (vnpay_status success))
  enter_if success p
  pure (answered success)

abbrev pub outcome_found : Bool → Option Payment → Handler VnpayAnswer
outcome_found success none = pure payment_not_found
outcome_found success (some p) = record_outcome success p

unfoldable pub handle_vnpay_return : (VnpayQuery → Bool) → VnpayQuery → Handler VnpayAnswer
handle_vnpay_return verify query s = outcome_found (verify query) (latest_vnpay s.payments) s

unfoldable pub handle_vnpay_ipn : (VnpayQuery → Bool) → VnpayQuery → Handler VnpayAnswer
handle_vnpay_ipn verify query s = outcome_found (verify query) (latest_vnpay s.payments) s
