-- ===== src/Ticket/Expiry/Sweep.antt =====
-- `expireTickets` in batches against one pass over the table.
use metro_backend.Prelude.{
  ℕ, zero, suc, ◌+◌, ◌-◌, ◌<◌, ◌≤◌, ◌≡◌, refl, false, String, none, some, List, [], ◌∷◌, map, keep,
  length, take, arith, eq_iff, if◌then◌else◌, ap, sym, subst, Bool-cases, min, inl, inr,
  length-keep-le, ok,
}
use metro_backend.Ticket.{Ticket, Status, System, find_by_pk}
use metro_backend.Ticket.Rows.{Distinct, map-Distinct}
use metro_backend.Ticket.Expiry.{
  is_overdue, is_among, ids_of, expire_batch, expire_loop, expire_tickets,
}

abbrev pub expired_row : Ticket → Ticket
expired_row t = record t { status = Status.expired }

-- One pass: the overdue rows expire, the others stay.
unfoldable pub expire_overdue : ℕ → Ticket → Ticket
expire_overdue now t = if is_overdue now t then expired_row t else t

-- The first rows that are overdue expire, the others stay.
unfoldable expire_first : ℕ → ℕ → List Ticket → List Ticket
expire_first now zero ts = ts
expire_first now (suc n) [] = []
expire_first now (suc n) (t ∷ ts) =
    expire_overdue now t ∷ expire_first now (if is_overdue now t then n else suc n) ts

-- A key that no row has is no key of a selection.
fresh-ids_of :
    (now : ℕ) (u : Ticket) (n : ℕ) (ts : List Ticket)
    → find_by_pk u.ticket_id ts ≡ none
    → is_among (ids_of (take n (keep (is_overdue now) ts))) u ≡ false
unfolding find_by_pk
fresh-ids_of now u zero ts h = refl
fresh-ids_of now u (suc n) [] h = refl
fresh-ids_of now u (suc n) (t ∷ ts) h = ground (
  arith,
  eq_iff t.ticket_id u.ticket_id,
  eq_iff u.ticket_id t.ticket_id,
  fresh-ids_of now u n ts,
  fresh-ids_of now u (suc n) ts,
)

fresh-expire_batch :
    (id : String) (ids : List String) (ts : List Ticket)
    → find_by_pk id ts ≡ none
    → expire_batch (id ∷ ids) ts ≡ expire_batch ids ts
unfolding find_by_pk expire_batch
fresh-expire_batch id ids [] h = refl
fresh-expire_batch id ids (t ∷ ts) h =
    ground (arith, eq_iff t.ticket_id id, fresh-expire_batch id ids ts)

expire_batch-none : (ts : List Ticket) → expire_batch [] ts ≡ ts
unfolding expire_batch
expire_batch-none [] = refl
expire_batch-none (t ∷ ts) = ap (λ us. t ∷ us) (expire_batch-none ts)

expire_batch-cons :
    (ids : List String) (t : Ticket) (ts : List Ticket)
    → expire_batch ids (t ∷ ts)
      ≡ (if is_among ids t then expired_row t else t) ∷ expire_batch ids ts
unfolding expire_batch
expire_batch-cons ids t ts = refl

expire_batch-expire_first :
    (now n : ℕ) (ts : List Ticket)
    → Distinct ts
    → expire_batch (ids_of (take n (keep (is_overdue now) ts))) ts ≡ expire_first now n ts
unfolding expire_first expire_overdue
expire_batch-expire_first now zero ts d = expire_batch-none ts
expire_batch-expire_first now (suc n) [] d = unfold expire_batch in refl
expire_batch-expire_first now (suc n) (t ∷ ts) d = elim (Bool-cases (is_overdue now t)) [
  | inl e ↦ rw e (
      ground (
        arith,
        eq_iff t.ticket_id t.ticket_id,
        expire_batch-cons (ids_of (take (suc n) (t ∷ keep (is_overdue now) ts))) t ts,
        fresh-expire_batch t.ticket_id (ids_of (take n (keep (is_overdue now) ts))) ts,
        expire_batch-expire_first now n ts d.1,
      ))
  | inr e ↦ rw e (
      ground (
        arith,
        expire_batch-cons (ids_of (take (suc n) (keep (is_overdue now) ts))) t ts,
        fresh-ids_of now t (suc n) ts,
        expire_batch-expire_first now (suc n) ts d.1,
      ))
]

expired-is_overdue : (now : ℕ) (t : Ticket) → is_overdue now (expire_overdue now t) ≡ false
unfolding expire_overdue is_overdue
expired-is_overdue now t = ground arith

expire_overdue-twice :
    (now : ℕ) (t : Ticket) → expire_overdue now (expire_overdue now t) ≡ expire_overdue now t
unfolding expire_overdue
expire_overdue-twice now t = ground arith

length-ids_of : (n : ℕ) (ts : List Ticket) → length (ids_of (take n ts)) ≡ min n (length ts)
length-ids_of zero ts = omega arith
length-ids_of (suc n) [] = omega arith
length-ids_of (suc n) (t ∷ ts) = omega (arith, length-ids_of n ts)

expire_batch-Distinct :
    (ids : List String) (ts : List Ticket) → Distinct ts → Distinct (expire_batch ids ts)
unfolding expire_batch
expire_batch-Distinct ids ts d =
    map-Distinct (λ t. if is_among ids t then expired_row t else t) ts (λ t. ground arith) d

module _ (now : ℕ) where
  expire_first_count :
      (n : ℕ) (ts : List Ticket)
      → length (keep (is_overdue now) (expire_first now n ts))
        ≡ length (keep (is_overdue now) ts) - n
  unfolding expire_first
  expire_first_count zero ts = omega arith
  expire_first_count (suc n) [] = omega arith
  expire_first_count (suc n) (t ∷ ts) = elim (Bool-cases (is_overdue now t)) [
    | inl e ↦ rw (e, expired-is_overdue now t) (ground (arith, expire_first_count n ts))
    | inr e ↦ rw (e, expired-is_overdue now t) (ground (arith, expire_first_count (suc n) ts))
  ]

  -- What is left after some rows expired, swept, is the sweep of the whole.
  map-expire_first :
      (n : ℕ) (ts : List Ticket)
      → map (expire_overdue now) (expire_first now n ts) ≡ map (expire_overdue now) ts
  unfolding expire_first
  map-expire_first zero ts = refl
  map-expire_first (suc n) [] = refl
  map-expire_first (suc n) (t ∷ ts) = ground (
    arith,
    expire_overdue-twice now t,
    map-expire_first (if is_overdue now t then n else suc n) ts,
  )

  none_overdue :
      (ts : List Ticket) → length (keep (is_overdue now) ts) ≤ 0 → map (expire_overdue now) ts ≡ ts
  unfolding expire_overdue
  none_overdue [] h = refl
  none_overdue (t ∷ ts) h = ground (arith, none_overdue ts)

  expire_first_all :
      (n : ℕ) (ts : List Ticket)
      → length (keep (is_overdue now) ts) ≤ n
      → expire_first now n ts ≡ map (expire_overdue now) ts
  unfolding expire_first
  expire_first_all zero ts h = sym (none_overdue ts h)
  expire_first_all (suc n) [] h = refl
  expire_first_all (suc n) (t ∷ ts) h = elim (Bool-cases (is_overdue now t)) [
    | inl e ↦ rw e (ap (λ us. expire_overdue now t ∷ us) (expire_first_all n ts (ground arith)))
    | inr e ↦
        rw e (ap (λ us. expire_overdue now t ∷ us) (expire_first_all (suc n) ts (ground arith)))
  ]

  expire_loop-sweep :
      (b fuel : ℕ) (ts : List Ticket) (total : ℕ)
      → Distinct ts
      → length (keep (is_overdue now) ts) < fuel
      → expire_loop (suc b) now fuel ts total
        ≡ some (total + length (keep (is_overdue now) ts), map (expire_overdue now) ts)
  unfolding expire_loop
  expire_loop-sweep b zero ts total d h = ground arith
  expire_loop-sweep b (suc fuel) ts total d h =
      let first = expire_first now (suc b) ts in
      let kept =
        subst Distinct (expire_batch-expire_first now (suc b) ts d)
          (expire_batch-Distinct (ids_of (take (suc b) (keep (is_overdue now) ts))) ts d) in
      rw (expire_batch-expire_first now (suc b) ts d) (
        ground (
          arith,
          length-ids_of (suc b) (keep (is_overdue now) ts),
          none_overdue ts,
          expire_first_all (suc b) ts,
          expire_first_count (suc b) ts,
          map-expire_first (suc b) ts,
          expire_loop-sweep b fuel first
              (total + length (ids_of (take (suc b) (keep (is_overdue now) ts)))) kept,
        ))

-- On a table with no two rows of the same key the job ends, whatever the number of batches: it
-- expires every active ticket whose term is over and that is not deactivated, and no other ticket,
-- and answers how many these were.
pub expire_tickets-sweep :
    (s : System)
    → Distinct s.tickets
    → expire_tickets s ≡ (
      ok (length (keep (is_overdue s.now) s.tickets)),
      record s { tickets = map (expire_overdue s.now) s.tickets },
    )
unfolding expire_tickets
expire_tickets-sweep s d = ground (
  arith,
  expire_loop-sweep s.now 999 (suc (length s.tickets)) s.tickets 0 d,
  length-keep-le (is_overdue s.now) s.tickets,
)
