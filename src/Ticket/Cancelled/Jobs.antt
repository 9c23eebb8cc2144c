-- ===== src/Ticket/Cancelled/Jobs.antt =====
-- Creation, payment and the jobs against a ticket that is cancelled.
use metro_backend.Prelude.{
  ◌≡◌, ◌∙◌, ◌⊎◌, ◌+◌, ℕ, zero, suc, inl, inr, sym, ap, subst, true, false, String, str_eq, eq_iff,
  Option, none, some, List, [], ◌∷◌, ◌++◌, All, map, keep, take, arith, continue_state, Bool-cases,
}
use metro_backend.Ticket.{Ticket, Status, System, find_by_pk, ticket_not_found}
use metro_backend.Ticket.Rows.{Distinct}
use metro_backend.Ticket.Rules.{with_ticket_state}
use metro_backend.Ticket.Payment.{
  process_payment_completion, determine_ticket_status_after_payment, validate_ticket_for_completion,
}
use metro_backend.Ticket.Events.{
  complete_payment, set_purchase_date, process_payment_completed_event,
  process_payment_failed_event, process_payment_cancelled_event,
}
use metro_backend.Ticket.Expiry.{is_overdue, is_due, activated, activate_each, expire_tickets}
use metro_backend.Ticket.Expiry.Sweep.{expire_overdue, expire_tickets-sweep}
use metro_backend.Ticket.Requests.{insert}
use metro_backend.Ticket.Cancelled.{IsKept, IsOther, update-IsKept, found-cases, found-IsOther}
use metro_backend.Ticket.Cancelled.Final.{update_ticket_status-IsKept, written-IsKept}

find_by_pk-append :
    (id : String) (ts : List Ticket) (t u : Ticket)
    → find_by_pk id ts ≡ some t
    → find_by_pk id (ts ++ u ∷ []) ≡ some t
unfolding find_by_pk
find_by_pk-append id [] t u e = cc
find_by_pk-append id (v ∷ ts) t u e = ground (arith, find_by_pk-append id ts t u)

find_by_pk-head :
    (id : String) (u : Ticket) (ts : List Ticket)
    → str_eq u.ticket_id id ≡ true
    → find_by_pk id (u ∷ ts) ≡ some u
unfolding find_by_pk
find_by_pk-head id u ts h = ground arith

find_by_pk-map :
    (f : Ticket → Ticket) (id : String) (ts : List Ticket) (t : Ticket)
    → ((u : Ticket) → (f u).ticket_id ≡ u.ticket_id)
    → find_by_pk id ts ≡ some t
    → find_by_pk id (map f ts) ≡ some (f t)
unfolding find_by_pk
find_by_pk-map f id [] t same e = cc
find_by_pk-map f id (u ∷ ts) t same e = elim (Bool-cases (str_eq u.ticket_id id)) [
  | inl h ↦
      let p : u ≡ t = ground arith in
      find_by_pk-head id (f u) (map f ts) (ap (λ k. str_eq k id) (same u) ∙ h)
      ∙ ap (λ v. some (f v)) p
  | inr h ↦ rw (same u, h) (find_by_pk-map f id ts t same (ground arith))
]

module _ (t : Ticket) where
  fresh-IsOther : (ts : List Ticket) → find_by_pk t.ticket_id ts ≡ none → All (IsOther t) ts
  unfolding find_by_pk
  fresh-IsOther [] e = tt
  fresh-IsOther (u ∷ ts) e = (ground arith, fresh-IsOther ts (ground arith))

  -- The rows that a job finds due have other keys than a cancelled ticket.
  due-IsOther :
      (now n : ℕ) (ts : List Ticket)
      → All (IsOther t) ts
      → All (IsOther t) (take n (keep (is_due now) ts))
  due-IsOther now zero ts h = tt
  due-IsOther now (suc n) [] h = tt
  due-IsOther now (suc n) (u ∷ ts) h = elim (Bool-cases (is_due now u)) [
    | inl e ↦ rw e (h.0, due-IsOther now n ts h.1)
    | inr e ↦ rw e (due-IsOther now (suc n) ts h.1)
  ]

module _ (t : Ticket) (c : t.status ≡ Status.cancelled) where
  pub kept_due-IsOther :
      (now n : ℕ) (ts : List Ticket)
      → Distinct ts
      → find_by_pk t.ticket_id ts ≡ some t
      → All (IsOther t) (take n (keep (is_due now) ts))
  unfolding find_by_pk
  kept_due-IsOther now zero ts d e = tt
  kept_due-IsOther now (suc n) [] d e = tt
  kept_due-IsOther now (suc n) (u ∷ ts) d e = elim (Bool-cases (str_eq u.ticket_id t.ticket_id)) [
    | inl h ↦
        let not_due : is_due now u ≡ false = unfold is_due in ground (arith, c) in
        let fresh : find_by_pk t.ticket_id ts ≡ none =
          ground (arith, eq_iff u.ticket_id t.ticket_id, d.0) in
        rw not_due (due-IsOther t now (suc n) ts (fresh-IsOther t ts fresh))
    | inr h ↦ elim (Bool-cases (is_due now u)) [
      | inl due ↦ rw due (h, kept_due-IsOther now n ts d.1 (ground arith))
      | inr later ↦ rw later (kept_due-IsOther now (suc n) ts d.1 (ground arith))
    ]
  ]

  pub activate_each-IsKept :
      (ts : List Ticket) (count : ℕ) (s : System)
      → All (IsOther t) ts
      → IsKept t s
      → IsKept t (activate_each ts count s).1
  unfolding activate_each activated
  activate_each-IsKept [] count s h k = k
  activate_each-IsKept (u ∷ ts) count s h k = ground (
    arith,
    activate_each-IsKept ts (count + 1) _ h.1 (written-IsKept t c (activated s.now u) s k h.0),
  )

  pub expire-IsKept : (s : System) → Distinct s.tickets → IsKept t s → IsKept t (expire_tickets s).1
  unfolding expire_overdue is_overdue
  expire-IsKept s d k =
      subst (λ r. IsKept t r.1) (sym (expire_tickets-sweep s d))
        (record {
          kept = ground (
            arith,
            c,
            find_by_pk-map (expire_overdue s.now) t.ticket_id s.tickets t
                (λ (u : Ticket). ground arith) k.kept,
          );
        })

  pub insert-IsKept :
      (u : Ticket) (o : Option Ticket) (s : System) → IsKept t s → IsKept t (insert u o s)
  insert-IsKept u none s k = record { kept = find_by_pk-append t.ticket_id s.tickets t u k.kept }
  insert-IsKept u (some v) s k = k

  payment-IsKept :
      (payment : String) (u : Ticket) (s : System)
      → IsKept t s
      → (u ≡ t) ⊎ IsOther t u
      → IsKept t (process_payment_completion u payment s).1
  unfolding process_payment_completion determine_ticket_status_after_payment
      validate_ticket_for_completion
  payment-IsKept payment u s k (inl e) = ground (arith, c, e, k)
  payment-IsKept payment u s k (inr o) =
      let v = determine_ticket_status_after_payment u s.now in
      ground (arith, written-IsKept t c v s k, update-IsKept t v s k, k, o)

  set_purchase_date-IsKept :
      (u : Ticket) (s : System)
      → IsKept t s
      → IsOther t u
      → IsKept t (set_purchase_date u.ticket_id s).1
  unfolding set_purchase_date
  set_purchase_date-IsKept u s k o =
      with_ticket_state (IsKept t) u.ticket_id ticket_not_found _ s k λ v e.
        update-IsKept t (record v { purchase_date = some s.now }) s k (found-IsOther t u v s o e)

  complete_payment-IsKept :
      (payment : String) (u : Ticket) (s : System)
      → IsKept t s
      → (u ≡ t) ⊎ IsOther t u
      → IsKept t (complete_payment payment u s).1
  unfolding complete_payment
  complete_payment-IsKept payment u s k (inl e) =
      unfold process_payment_completion validate_ticket_for_completion in ground (arith, c, e, k)
  complete_payment-IsKept payment u s k (inr o) =
      let after = payment-IsKept payment u s k (inr o) in
      continue_state (IsKept t) (process_payment_completion u payment s) _ after
        λ r _. ground (arith, set_purchase_date-IsKept u _ after o)

  pub payment_completed-IsKept :
      (id payment : String) (s : System)
      → IsKept t s
      → IsKept t (process_payment_completed_event id payment s).1
  unfolding process_payment_completed_event
  payment_completed-IsKept id payment s k =
      with_ticket_state (IsKept t) id ticket_not_found (complete_payment payment) s k
        λ u e. complete_payment-IsKept payment u s k (found-cases t id u s k e)

  pub payment_failed-IsKept :
      (id : String) (s : System) → IsKept t s → IsKept t (process_payment_failed_event id s).1
  unfolding process_payment_failed_event
  payment_failed-IsKept id s k =
      ground (arith, update_ticket_status-IsKept t c id Status.cancelled s k)

  pub payment_cancelled-IsKept :
      (id : String) (s : System) → IsKept t s → IsKept t (process_payment_cancelled_event id s).1
  unfolding process_payment_cancelled_event
  payment_cancelled-IsKept id s k =
      ground (arith, update_ticket_status-IsKept t c id Status.cancelled s k)
