-- ===== src/Payments/AnyOrder.antt =====
-- The messages of payment-service in any order, while the database and the broker come and go.
use metro_backend.Prelude.{
  ℕ, ◌-◌, ◌≡◌, refl, ap, Bool, ◌==◌, ltb, String, eq_iff, none, List, [], ◌∷◌, ◌++◌, arith,
  Bool-cases, inl, inr, Option-cases, ok, err, Text, codes, ◌⊎◌,
}
use metro_backend.Sepay.{Payload, or_text}
use metro_backend.Payments.{
  Payment, pending, Transaction, Event, Store, Failure, db_error, LogType, write, publish,
  update_payments, ticket_payment_ready,
}
use metro_backend.Payments.Notices.{handle_webhook_payload, with_log}
use metro_backend.Payments.Orders.{
  PaymentData, validate_payment_data, order_row, create_payment, create_order, create_qr,
  process_payment, description_of, as_ordered,
}
use metro_backend.Payments.Cancelled.{TicketCancelled, handle_ticket_cancelled}
use metro_backend.Payments.Ledger.{
  published-append, row_of, Unique, row_of-update, update-Unique, row_of-append, append-Unique,
}
use metro_backend.Payments.Sound.{due, paid, IsSound, AllSound}

-- What reaches payment-service: a message of SePay, an order, a cancelled ticket, or a change of
-- what stands around it: the writes that the database still takes, the broker and the clock.
pub data Message : Type 0 where
  noticed : Payload → Message
  ordered : PaymentData → Message
  cancelled : TicketCancelled → Message
  around : ℕ → Bool → ℕ → Message

unfoldable pub serve : Message → Store → Store
serve (noticed raw) s = (handle_webhook_payload raw s).1
serve (ordered d) s = (process_payment d s).1
serve (cancelled event) s = (handle_ticket_cancelled event s).1
serve (around writes broker now) s = record s {
  writes_left = writes;
  broker_up = broker;
  now = now;
}

unfoldable pub serve_all : List Message → Store → Store
serve_all [] s = s
serve_all (m ∷ ms) s = serve_all ms (serve m s)

-- The tables when an order was created.
abbrev pub with_order : PaymentData → ℕ → Store → Store
with_order d w s = record s {
  writes_left = w;
  payments = s.payments ++ order_row d s.now ∷ [];
  payment_logs = (with_log (order_row d s.now) LogType.payment pending s).payment_logs;
}

-- An order is created as a whole, under a new key, or fails and leaves the tables.
pub create_qr-cases :
    (d : PaymentData) (description : Text) (s : Store)
    → ((e : Failure) × (w : ℕ) × (create_qr d description s
          ≡ (err e, record s { writes_left = w })))
      ⊎ ((w : ℕ) × (row_of d.payment_id s.payments ≡ none)
          × (create_qr d description s
              ≡ (ok (or_text description (codes d.payment_id)), with_order d w s)))
unfolding create_qr create_order create_payment write
create_qr-cases d description s = elim (Option-cases (row_of d.payment_id s.payments)) [
  | inr (p, taken) ↦ inl (db_error, s.writes_left, rw taken refl)
  | inl free ↦ elim (Bool-cases (ltb d.amount 100_000_000)) [
    | inr long ↦ inl (db_error, s.writes_left, rw (free, long) refl)
    | inl fits ↦ elim (Bool-cases (s.writes_left == 0)) [
      | inl gone ↦ inl (db_error, s.writes_left, rw (free, fits, gone) refl)
      | inr first ↦ elim (Bool-cases (s.writes_left - 1 == 0)) [
        | inl gone ↦ inl (db_error, s.writes_left - 1, rw (free, fits, first, gone) refl)
        | inr second ↦ inr (s.writes_left - 1 - 1, free, rw (free, fits, first, second) refl)
      ]
    ]
  ]
]

module _ (k : String) (ps : List Payment) (ts : List Transaction) (es : List Event) where
  -- The rows may change as long as nothing becomes owed or paid.
  IsSound-rows :
      (qs : List Payment)
      → IsSound k ps ts es
      → due (row_of k qs) ≡ due (row_of k ps)
      → paid (row_of k qs) ≡ paid (row_of k ps)
      → Unique qs
      → IsSound k qs ts es
  IsSound-rows qs sound same_due same_paid unique = record {
    sum = omega (arith, sound.sum);
    once = omega (arith, sound.once);
    told = sound.told;
    unique = unique;
  }

module _ (k : String) (d : PaymentData) (s : Store) (sound : AllSound k s) where
  with_order-IsSound :
      (w : ℕ) → row_of d.payment_id s.payments ≡ none → AllSound k (with_order d w s)
  with_order-IsSound w free =
      let row = row_of-append k s.payments (order_row d s.now) in
      IsSound-rows k s.payments s.transactions s.events (s.payments ++ order_row d s.now ∷ []) sound
        (ground (arith, row, Option-cases (row_of k s.payments)))
        (ground (arith, row, Option-cases (row_of k s.payments)))
        (append-Unique s.payments (order_row d s.now) sound.unique free)

  order_rows :
      (w : ℕ)
      → row_of d.payment_id s.payments ≡ none
      → (due (row_of k (update_payments d.payment_id as_ordered (with_order d w s).payments))
          ≡ due (row_of k (with_order d w s).payments))
        × (paid (row_of k (update_payments d.payment_id as_ordered (with_order d w s).payments))
            ≡ paid (row_of k (with_order d w s).payments))
  order_rows w free = ground (
    arith,
    row_of-update k d.payment_id as_ordered (with_order d w s).payments (λ q. refl),
    row_of-append k s.payments (order_row d s.now),
    eq_iff d.payment_id k,
    free,
    ap (λ i. row_of i s.payments),
  )

  ordered-IsSound :
      (w : ℕ)
      → row_of d.payment_id s.payments ≡ none
      → IsSound k
          (update_payments d.payment_id as_ordered (with_order d w s).payments)
          s.transactions
          s.events
  ordered-IsSound w free =
      let created = with_order-IsSound w free in
      let (same_due, same_paid) = order_rows w free in
      IsSound-rows k (with_order d w s).payments s.transactions s.events
        (update_payments d.payment_id as_ordered (with_order d w s).payments) created same_due
        same_paid
        (update-Unique d.payment_id as_ordered (with_order d w s).payments (λ q. refl)
          created.unique)

  announced :
      (ps : List Payment)
      → IsSound k ps s.transactions s.events
      → IsSound k ps s.transactions (s.events ++ ticket_payment_ready d.ticket_id d.payment_id ∷ [])
  announced ps kept = record {
    sum = kept.sum;
    once = kept.once;
    told = omega (
      arith,
      kept.told,
      published-append k (ticket_payment_ready d.ticket_id d.payment_id) s.events,
    );
    unique = kept.unique;
  }

  pub process_payment-IsSound : AllSound k (process_payment d s).1
  unfolding process_payment write publish
  process_payment-IsSound = elim (Bool-cases (validate_payment_data d)) [
    | inr wrong ↦ rw wrong sound
    | inl valid ↦ elim (create_qr-cases d (description_of d) s) [
      | inl (e, w, failed) ↦ rw (valid, failed) sound
      | inr (w, free, done) ↦ elim (Bool-cases (w == 0)) [
        | inl gone ↦ rw (valid, done, gone) (with_order-IsSound w free)
        | inr left ↦ elim (Bool-cases s.broker_up) [
          | inl up ↦
              rw (valid, done, left, up)
                (announced (update_payments d.payment_id as_ordered (with_order d w s).payments)
                  (ordered-IsSound w free))
          | inr down ↦ rw (valid, done, left, down) (ordered-IsSound w free)
        ]
      ]
    ]
  ]
