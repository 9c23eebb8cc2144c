-- ===== src/Payments/Lost.antt =====
-- A transfer that arrives while the broker is down.
use metro_backend.Prelude.{
  ℕ, ◌+◌, ◌≡◌, refl, ap, sym, subst, false, eq_refl, some, List, codes, err,
}
use metro_backend.Sepay.{Payload}
use metro_backend.Payments.{Payment, Store, of_ticket, update_payments, publish_error}
use metro_backend.Payments.Notices.{handle_webhook_payload, as_completed}
use metro_backend.Payments.Ledger.{published, row_of, row_of-update, changed, find_payment-row}
use metro_backend.Payments.Sound.{AllSound, handle_webhook_payload-IsSound}
use metro_backend.Payments.AnyOrder.{Message, serve_all}
use metro_backend.Payments.Always.{IsSettled, serve_all-IsSettled}
use metro_backend.Payments.Paid.{IsWaiting, IsTransfer, transfer-unsent}

-- In sound tables, the transfer of an order that waits, which arrives while the database takes its
-- three writes and the broker is down: the message fails with the payment completed, and whatever
-- notices and orders of SePay and cancellations arrive later, the payment keeps the completed row
-- and `payment.completed` is never published for it.
pub transfer-lost :
    (p : Payment) (s : Store) (raw : Payload) (w : ℕ) (later : List Message)
    → IsWaiting p s
    → IsTransfer p raw
    → AllSound p.payment_id s
    → s.writes_left ≡ w + 3
    → s.broker_up ≡ false
    → ((handle_webhook_payload raw s).0 ≡ err publish_error)
      × IsSettled p.payment_id
          (published p.payment_id s.events)
          (as_completed s.now p)
          (serve_all later (handle_webhook_payload raw s).1)
transfer-lost p s raw w later waiting transfer sound left down =
    let mine =
      find_payment-row (of_ticket (codes p.ticket_id)) s.payments p sound.unique waiting.mine in
    let found : row_of p.payment_id (update_payments p.payment_id (as_completed s.now) s.payments)
        ≡ some (as_completed s.now p) =
      rw
        (
          row_of-update p.payment_id p.payment_id (as_completed s.now) s.payments (λ q. refl),
          eq_refl p.payment_id,
        )
        (ap (changed (as_completed s.now)) mine) in
    let after = transfer-unsent p s raw waiting transfer w left down in
    (
      ap (λ r. r.0) after,
      serve_all-IsSettled p.payment_id (published p.payment_id s.events) (as_completed s.now p)
          later (handle_webhook_payload raw s).1
          (handle_webhook_payload-IsSound p.payment_id s sound raw)
          (subst
            (λ r.
              IsSettled p.payment_id (published p.payment_id s.events) (as_completed s.now p) r.1)
            (sym after) (record { found = found; done = refl; told = refl })),
    )
