-- ===== src/Payments/Always.antt =====
-- What every sequence of messages to payment-service keeps.
use metro_backend.Prelude.{
  ℕ, ◌-◌, ◌≡◌, refl, ap, ◌∙◌, true, false, ◌==◌, String, str_eq, eq_iff, Option, none, some, List,
  [], ◌∷◌, ◌++◌, arith, Bool-cases, inl, inr,
}
use metro_backend.Payments.{
  Payment, Store, is_completed, write, publish, update_payments, ticket_payment_ready,
}
use metro_backend.Payments.Notices.{
  Normalized, complete, settle_payment, does_settle, payment_named, handle_webhook_payload,
  normalize_payload, as_completed,
}
use metro_backend.Payments.Orders.{
  PaymentData, process_payment, validate_payment_data, description_of, as_ordered, order_row,
}
use metro_backend.Payments.Ledger.{
  published, published-append, row_of, Unique, row_of-update, row_of-append,
}
use metro_backend.Payments.Sound.{
  AllSound, handle_webhook_payload-IsSound, payment_named-row, does_settle-waits, notice_of,
}
use metro_backend.Payments.Refunds.{handle_ticket_cancelled-IsLeft}
use metro_backend.Payments.AnyOrder.{
  Message, noticed, ordered, cancelled, around, serve, serve_all, create_qr-cases, with_order,
  process_payment-IsSound,
}

serve-IsSound : (k : String) (m : Message) (s : Store) → AllSound k s → AllSound k (serve m s)
unfolding serve
serve-IsSound k (noticed raw) s sound = handle_webhook_payload-IsSound k s sound raw
serve-IsSound k (ordered d) s sound = process_payment-IsSound k d s sound
serve-IsSound k (cancelled event) s sound =
    let kept = handle_ticket_cancelled-IsLeft k event s in
    record {
      sum = rw (kept.row, kept.transactions) sound.sum;
      once = rw (kept.row, kept.transactions) sound.once;
      told = rw (kept.transactions, kept.events) sound.told;
      unique = kept.unique sound.unique;
    }
serve-IsSound k (around writes broker now) s sound = sound

-- From tables where this holds, such as empty ones, it holds for every payment after any notices
-- and orders of SePay and any cancellations in any order, while the database and the broker come
-- and go: the transactions of the payment add up to no more than its amount, and to nothing unless
-- it is completed; there is at most one of them; `payment.completed` is published at most as
-- often; and no two rows have a key.
pub serve_all-IsSound :
    (k : String) (ms : List Message) (s : Store) → AllSound k s → AllSound k (serve_all ms s)
unfolding serve_all
serve_all-IsSound k [] s sound = sound
serve_all-IsSound k (m ∷ ms) s sound =
    serve_all-IsSound k ms (serve m s) (serve-IsSound k m s sound)

-- The row of a payment, which is completed, and how often that was published.
pub record IsSettled (k : String) (n : ℕ) (row : Payment) (s : Store) : Type 0 where
  pub found : row_of k s.payments ≡ some row
  pub done : is_completed row.payment_status ≡ true
  pub told : published k s.events ≡ n

module _ (k : String) (n : ℕ) (row : Payment) (s : Store) (settled : IsSettled k n row s)
    (unique : Unique s.payments) where
  still :
      {after : Store}
      → row_of k after.payments ≡ some row
      → published k after.events ≡ n
      → IsSettled k n row after
  still found told = record { found = found; done = settled.done; told = told }

  -- A row with another key, or one that is not completed, is another payment.
  other_row :
      (p : Payment)
      → row_of p.payment_id s.payments ≡ some p
      → is_completed p.payment_status ≡ false
      → str_eq p.payment_id k ≡ false
  other_row p e waits = ground (
    arith,
    e,
    waits,
    settled.found,
    settled.done,
    eq_iff p.payment_id k,
    ap (λ i. row_of i s.payments),
  )

  complete-IsSettled :
      (p : Payment) → str_eq p.payment_id k ≡ false → IsSettled k n row (complete p s).1
  unfolding complete write publish
  complete-IsSettled p other =
      let same : row_of k (update_payments p.payment_id (as_completed s.now) s.payments)
          ≡ some row =
        rw (row_of-update k p.payment_id (as_completed s.now) s.payments (λ q. refl), other)
          settled.found in
      let quiet : published k (s.events ++ notice_of p ∷ []) ≡ n =
        ground (arith, published-append k (notice_of p) s.events, other, settled.told) in
      elim (Bool-cases (s.writes_left == 0)) [
        | inl gone ↦ rw gone settled
        | inr first ↦ elim (Bool-cases (s.writes_left - 1 == 0)) [
          | inl gone ↦ rw (first, gone) (still same settled.told)
          | inr second ↦ elim (Bool-cases (s.writes_left - 1 - 1 == 0)) [
            | inl gone ↦ rw (first, second, gone) (still same settled.told)
            | inr third ↦ elim (Bool-cases s.broker_up) [
              | inl up ↦ rw (first, second, third, up) (still same quiet)
              | inr down ↦ rw (first, second, third, down) (still same settled.told)
            ]
          ]
        ]
      ]

  settle_payment-IsSettled :
      (m : Normalized) (o : Option Payment)
      → payment_named m s.payments ≡ o
      → IsSettled k n row (settle_payment m o s).1
  unfolding settle_payment
  settle_payment-IsSettled m none e = settled
  settle_payment-IsSettled m (some p) e = elim (Bool-cases (does_settle m p)) [
    | inl does ↦ rw does (
        complete-IsSettled p
          (other_row p (payment_named-row m s.payments p unique e) (does_settle-waits m p does)))
    | inr leaves ↦ rw leaves settled
  ]

  other_order :
      (d : PaymentData) → row_of d.payment_id s.payments ≡ none → str_eq d.payment_id k ≡ false
  other_order d free =
      ground (arith, free, settled.found, eq_iff d.payment_id k, ap (λ i. row_of i s.payments))

  process_payment-IsSettled : (d : PaymentData) → IsSettled k n row (process_payment d s).1
  unfolding process_payment write publish
  process_payment-IsSettled d = elim (Bool-cases (validate_payment_data d)) [
    | inr wrong ↦ rw wrong settled
    | inl valid ↦ elim (create_qr-cases d (description_of d) s) [
      | inl (e, w, failed) ↦ rw (valid, failed) (still settled.found settled.told)
      | inr (w, free, done) ↦
          let appended = row_of-append k s.payments (order_row d s.now) in
          let here : row_of k (with_order d w s).payments ≡ some row =
            rw (appended, settled.found) refl in
          let same : row_of k (update_payments d.payment_id as_ordered (with_order d w s).payments)
              ≡ some row =
            rw
              (
                row_of-update k d.payment_id as_ordered (with_order d w s).payments (λ q. refl),
                other_order d free,
              )
              here in
          elim (Bool-cases (w == 0)) [
            | inl gone ↦ rw (valid, done, gone) (still here settled.told)
            | inr left ↦ elim (Bool-cases s.broker_up) [
              | inl up ↦
                  rw (valid, done, left, up)
                    (still same (
                      omega (
                        arith,
                        settled.told,
                        published-append k (ticket_payment_ready d.ticket_id d.payment_id) s.events,
                      )))
              | inr down ↦ rw (valid, done, left, down) (still same settled.told)
            ]
          ]
    ]
  ]

serve-IsSettled :
    (k : String) (n : ℕ) (row : Payment) (m : Message) (s : Store)
    → Unique s.payments
    → IsSettled k n row s
    → IsSettled k n row (serve m s)
unfolding serve handle_webhook_payload
serve-IsSettled k n row (noticed raw) s u settled =
    settle_payment-IsSettled k n row s settled u (normalize_payload raw)
      (payment_named (normalize_payload raw) s.payments) refl
serve-IsSettled k n row (ordered d) s u settled = process_payment-IsSettled k n row s settled u d
serve-IsSettled k n row (cancelled event) s u settled =
    let kept = handle_ticket_cancelled-IsLeft k event s in
    still k n row s settled u (kept.row ∙ settled.found)
      (ap (published k) kept.events ∙ settled.told)
serve-IsSettled k n row (around writes broker now) s u settled =
    still k n row s settled u settled.found settled.told

-- A payment that is completed, in tables that are sound, keeps the very row that it has, its date
-- and amount included, and `payment.completed` stays published for it as often as it was, after any
-- notices and orders of SePay and any cancellations, while the database and the broker come and go.
pub serve_all-IsSettled :
    (k : String) (n : ℕ) (row : Payment) (ms : List Message) (s : Store)
    → AllSound k s
    → IsSettled k n row s
    → IsSettled k n row (serve_all ms s)
unfolding serve_all
serve_all-IsSettled k n row [] s sound settled = settled
serve_all-IsSettled k n row (m ∷ ms) s sound settled =
    serve_all-IsSettled k n row ms (serve m s) (serve-IsSound k m s sound)
      (serve-IsSettled k n row m s sound.unique settled)
