-- ===== src/Payments/Refunds.antt =====
-- The message on `ticket.cancelled`, whose statuses the columns do not have.
use metro_backend.Prelude.{
  ◌≡◌, refl, subst, ◌==◌, String, str_eq, eq_iff, none, some, List, [], ◌∷◌, arith, Bool-cases, inl,
  inr, Option-cases, err, ◌⊎◌, sym,
}
use metro_backend.Payments.{
  Payment, PaymentStatus, pending, approved, completed, failed, Store, db_error, find_payment,
  has_id, update_payments, write,
}
use metro_backend.Payments.Cancelled.{
  TicketCancelled, handle_ticket_cancelled, cancel_payment, payment_status_column, log_type_column,
  cancelled_status, with_status,
}
use metro_backend.Payments.Ledger.{row_of, row_of-update, Unique, update-Unique}

-- Writing the status that a row has.
same_status :
    (k id : String) (ps : List Payment) (p : Payment)
    → row_of id ps ≡ some p
    → row_of k (update_payments id (with_status p.payment_status) ps) ≡ row_of k ps
same_status k id ps p e = elim (Bool-cases (str_eq id k)) [
  | inl this ↦
      let at_k : row_of k ps ≡ some p =
        subst (λ i. row_of i ps ≡ some p) ((eq_iff id k).0 this) e in
      rw (row_of-update k id (with_status p.payment_status) ps (λ q. refl), this, at_k) refl
  | inr other ↦ rw (row_of-update k id (with_status p.payment_status) ps (λ q. refl), other) refl
]

-- What a refused cancellation leaves as it was.
pub record IsLeft (k : String) (s after : Store) : Type 0 where
  pub row : row_of k after.payments ≡ row_of k s.payments
  pub transactions : after.transactions ≡ s.transactions
  pub logs : after.payment_logs ≡ s.payment_logs
  pub events : after.events ≡ s.events
  pub unique : Unique s.payments → Unique after.payments

-- The new statuses of a payment that waits or is completed are in no column.
column_of :
    (status : PaymentStatus)
    → (payment_status_column (cancelled_status status) ≡ none)
      ⊎ (payment_status_column (cancelled_status status) ≡ some status)
unfolding payment_status_column
column_of pending = inl refl
column_of approved = inr refl
column_of completed = inl refl
column_of failed = inr refl

no_cancellation : log_type_column "CANCELLATION" ≡ none
unfolding log_type_column
no_cancellation = refl

untouched : (k : String) (s : Store) → IsLeft k s s
untouched k s = record {
  row = refl;
  transactions = refl;
  logs = refl;
  events = refl;
  unique = λ u. u;
}

cancel_payment-refused :
    (k : String) (event : TicketCancelled) (s : Store) (p : Payment)
    → row_of p.payment_id s.payments ≡ some p
    → ((cancel_payment event p s).0 ≡ err db_error) × IsLeft k s (cancel_payment event p s).1
unfolding cancel_payment write
cancel_payment-refused k event s p e = elim (column_of p.payment_status) [
  | inl gone ↦ rw gone (refl, untouched k s)
  | inr kept ↦ elim (Bool-cases (s.writes_left == 0)) [
    | inl lost ↦ rw (kept, lost) (refl, untouched k s)
    | inr left ↦
        rw (kept, left, no_cancellation)
          (
            refl,
            record {
              row = same_status k p.payment_id s.payments p e;
              transactions = refl;
              logs = refl;
              events = refl;
              unique =
                  update-Unique p.payment_id (with_status p.payment_status) s.payments (λ q. refl);
            },
          )
  ]
]

found-key :
    (id : String) (ps : List Payment) (p : Payment) → row_of id ps ≡ some p → p.payment_id ≡ id
unfolding find_payment
found-key id [] p e = cc
found-key id (r ∷ ps) p e = ground (arith, found-key id ps p, eq_iff r.payment_id id)

pub handle_ticket_cancelled-IsLeft :
    (k : String) (event : TicketCancelled) (s : Store)
    → IsLeft k s (handle_ticket_cancelled event s).1
unfolding handle_ticket_cancelled
handle_ticket_cancelled-IsLeft k event s =
    elim (Option-cases (row_of event.payment_id s.payments)) [
      | inl missing ↦ rw missing (untouched k s)
      | inr (p, found) ↦
          rw found
            (cancel_payment-refused k event s p (
              subst (λ i. row_of i s.payments ≡ some p)
                (sym (found-key event.payment_id s.payments p found)) found)).1
    ]

-- The cancellation of a ticket whose payment is known fails whatever the payment's status: no
-- status, transaction or log row of any payment changes, and nothing is published.
pub handle_ticket_cancelled-refused :
    (k : String) (event : TicketCancelled) (s : Store) (p : Payment)
    → find_payment (has_id event.payment_id) s.payments ≡ some p
    → ((handle_ticket_cancelled event s).0 ≡ err db_error)
      × IsLeft k s (handle_ticket_cancelled event s).1
unfolding handle_ticket_cancelled
handle_ticket_cancelled-refused k event s p found = rw found (
    cancel_payment-refused k event s p (
      subst (λ i. row_of i s.payments ≡ some p)
        (sym (found-key event.payment_id s.payments p found)) found))
