-- ===== src/Payments/Vnpay/Twice.antt =====
-- The two answers of VNPay to one payment.
use metro_backend.Prelude.{
  ◌+◌, ◌-◌, ◌*◌, ◌≤◌, ◌≡◌, refl, Bool, true, false, ◌==◌, String, eq_refl, Option, none, some, List,
  [], ◌∷◌, ◌++◌, arith, if◌then◌else◌, ok,
}
use metro_backend.Payments.{Payment, Store, LogType, completed, has_id, update_payments, write}
use metro_backend.Payments.Notices.{with_payment, with_transaction, with_log}
use metro_backend.Payments.Ledger.{received, received-append}
use metro_backend.Payments.Sound.{entry_of}
use metro_backend.Payments.Vnpay.{
  VnpayQuery, latest_vnpay, with_outcome, record_outcome, handle_vnpay_return, handle_vnpay_ipn,
  answered,
}

abbrev rewritten : String → (Payment → Payment) → Option Payment → Option Payment
rewritten id f none = none
rewritten id f (some p) = some (if has_id id p then f p else p)

-- The outcome leaves the method and the date, by which the row is found.
latest_vnpay-update :
    (id : String) (success : Bool) (ps : List Payment)
    → latest_vnpay (update_payments id (with_outcome success) ps)
      ≡ rewritten id (with_outcome success) (latest_vnpay ps)
unfolding latest_vnpay update_payments
latest_vnpay-update id success [] = refl
latest_vnpay-update id success (p ∷ ps) = ground (arith, latest_vnpay-update id success ps)

-- The store after a success.
abbrev recorded : Payment → Store → Store
recorded p s =
    record (with_transaction p
      (with_log p LogType.payment completed (with_payment (with_outcome true) p.payment_id s))) {
        writes_left = s.writes_left - 3;
      }

record_outcome-recorded :
    (p : Payment) (s : Store)
    → 3 ≤ s.writes_left
    → record_outcome true p s ≡ (ok (answered true), recorded p s)
unfolding record_outcome write
record_outcome-recorded p s left =
    let first : (s.writes_left == 0) ≡ false = ground arith in
    let second : (s.writes_left - 1 == 0) ≡ false = ground arith in
    let third : (s.writes_left - 1 - 1 == 0) ≡ false = ground arith in
    let rest : s.writes_left - 1 - 1 - 1 ≡ s.writes_left - 3 = omega arith in
    rw (first, second, third, rest) refl

-- A payment that VNPay confirms to the browser and to the server is entered twice: the queries
-- are of whatever transactions, the payment is the latest one by VNPay, and after both answers,
-- with six writes, its transactions add up to twice its amount more.
pub vnpay-twice :
    (verify_return verify_ipn : VnpayQuery → Bool) (shown sent : VnpayQuery) (s : Store)
    (p : Payment)
    → verify_return shown ≡ true
    → verify_ipn sent ≡ true
    → latest_vnpay s.payments ≡ some p
    → 6 ≤ s.writes_left
    → received p.payment_id
        (handle_vnpay_ipn verify_ipn sent
          (handle_vnpay_return verify_return shown s).1).1.transactions
      ≡ received p.payment_id s.transactions + 2 * p.payment_amount
unfolding handle_vnpay_return handle_vnpay_ipn
vnpay-twice verify_return verify_ipn shown sent s p v w found left =
    let first = record_outcome-recorded p s (omega arith) in
    let q = with_outcome true p in
    let again : latest_vnpay (recorded p s).payments ≡ some q =
      rw (latest_vnpay-update p.payment_id true s.payments, found, eq_refl p.payment_id) refl in
    let second = record_outcome-recorded q (recorded p s) (omega arith) in
    let once = received-append p.payment_id (entry_of p) s.transactions in
    let twice = received-append p.payment_id (entry_of p) (s.transactions ++ entry_of p ∷ []) in
    rw (v, w, found, first, again, second) (ground (arith, once, twice, eq_refl p.payment_id))
