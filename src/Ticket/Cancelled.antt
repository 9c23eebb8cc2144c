-- ===== src/Ticket/Cancelled.antt =====
-- A row that no request may change any more, under each way to write a row.
pub mod Final
pub mod Jobs
pub mod AnyOrder
use metro_backend.Prelude.{
  ◌≡◌, ◌⊎◌, inl, inr, refl, sym, ap, subst, ◌∙◌, Bool, true, false, String, str_eq, eq_iff, Option,
  none, some, List, arith, ok, err, Result, continue, continue_state, Bool-cases,
}
use metro_backend.Ticket.{
  Ticket, Status, System, Handler, Failure, find_by_pk, find_by_pk-save, find_by_pk-ticket_id, save,
  update, with_ticket, on_found, publish_ticket_activated, null_access, ticket_not_found,
}
use metro_backend.Ticket.Rules.{with_ticket_state, rethrow_state}
use metro_backend.Ticket.Abuse.{
  Verdict, no_abuse, two_within_ten_seconds, more_than_three_in_a_minute, act_on, verdict_of,
  track_and_detect_abuse,
}
use metro_backend.Ticket.Usage.{
  record_use, short_term_use, use_short_term, use_long_term, handle_use_short_term_ticket,
  handle_use_long_term_ticket, handle_use, track_found, track_again, use_now,
}

module _ (t : Ticket) where
  -- The row is in the table as it was.
  pub record IsKept (s : System) : Type 0 where
    pub kept : find_by_pk t.ticket_id s.tickets ≡ some t

  -- A row of another key.
  abbrev pub IsOther : Ticket → Type 0
  IsOther u = str_eq u.ticket_id t.ticket_id ≡ false

  pub update-IsKept :
      (u : Ticket) (s : System)
      → IsKept s
      → IsOther u
      → IsKept (record s { tickets = save u s.tickets })
  update-IsKept u s k o = record {
    kept = ground (arith, find_by_pk-save t.ticket_id u s.tickets, k.kept);
  }

  pub same_rows-IsKept : (s u : System) → u.tickets ≡ s.tickets → IsKept s → IsKept u
  same_rows-IsKept s u e k = record {
    kept = subst (λ ts. find_by_pk t.ticket_id ts ≡ some t) (sym e) k.kept;
  }

  -- What a search finds is the row or a row of another key.
  pub found-cases :
      (id : String) (u : Ticket) (s : System)
      → IsKept s
      → find_by_pk id s.tickets ≡ some u
      → (u ≡ t) ⊎ IsOther u
  found-cases id u s k e = elim (Bool-cases (str_eq u.ticket_id t.ticket_id)) [
    | inl same ↦ inl (
        ground
          (arith, eq_iff u.ticket_id t.ticket_id, find_by_pk-ticket_id id s.tickets u e, k.kept))
    | inr other ↦ inr other
  ]

  track-IsKept :
      (u : Ticket) (s : System) → IsKept s → IsOther u → IsKept (track_and_detect_abuse u s).1
  unfolding track_and_detect_abuse
  track-IsKept u s k o = go (verdict_of s.now u)
    where
      go : (v : Verdict) → IsKept (act_on v u s).1
      go no_abuse = k
      go two_within_ten_seconds = update-IsKept (record u { status = Status.abused }) s k o
      go more_than_three_in_a_minute = update-IsKept (record u { status = Status.abused }) s k o

  record_use-IsKept : (u : Ticket) (s : System) → IsKept s → IsOther u → IsKept (record_use u s).1
  unfolding record_use
  record_use-IsKept u s k o =
      let rows = update-IsKept u s k o in
      continue_state IsKept (track_and_detect_abuse u (record s { tickets = save u s.tickets })) _
        (track-IsKept u _ rows o) (λ a e. track-IsKept u _ rows o)

  short_term_use-ticket_id :
      (u v : Ticket) (s : System) → short_term_use u s.now ≡ ok v → v.ticket_id ≡ u.ticket_id
  unfolding short_term_use
  short_term_use-ticket_id u v s e = ground arith

  use_short_term-IsKept :
      (u : Ticket) (s : System) → IsKept s → IsOther u → IsKept (use_short_term u s).1
  unfolding use_short_term
  use_short_term-IsKept u s k o =
      continue_state IsKept (short_term_use u s.now, s) record_use k
        λ v e. record_use-IsKept v s k (ground (arith, short_term_use-ticket_id u v s e))

  use_long_term-IsKept :
      (u : Ticket) (s : System) → IsKept s → IsOther u → IsKept (use_long_term u s).1
  unfolding use_long_term
  use_long_term-IsKept u s k o = ground (arith, record_use-IsKept (use_now u s.now) s k o)

  -- A row that is found by the key of a row of another key has another key.
  found-IsOther :
      (u v : Ticket) (s : System)
      → IsOther u
      → find_by_pk u.ticket_id s.tickets ≡ some v
      → IsOther v
  found-IsOther u v s o e = ground (arith, find_by_pk-ticket_id u.ticket_id s.tickets v e)

  pub handle_use-IsKept :
      (u : Ticket) (s : System) → IsKept s → IsOther u → IsKept (handle_use u s).1
  unfolding handle_use handle_use_short_term_ticket handle_use_long_term_ticket
  handle_use-IsKept u s k o = ground (
    arith,
    rethrow_state IsKept (with_ticket u.ticket_id null_access use_short_term s) (
        with_ticket_state IsKept u.ticket_id null_access use_short_term s k
          λ v e. use_short_term-IsKept v s k (found-IsOther u v s o e)),
    rethrow_state IsKept (with_ticket u.ticket_id null_access use_long_term s) (
        with_ticket_state IsKept u.ticket_id null_access use_long_term s k
          λ v e. use_long_term-IsKept v s k (found-IsOther u v s o e)),
  )

  pub track_again-IsKept :
      (u r : Ticket) (s : System) → IsKept s → IsOther u → IsKept (track_again u.ticket_id r s).1
  unfolding track_again
  track_again-IsKept u r s k o = go (find_by_pk u.ticket_id s.tickets) refl
    where
      go : (f : Option Ticket) → find_by_pk u.ticket_id s.tickets ≡ f → IsKept (track_found r f s).1
      go none e = k
      go (some v) e = track-IsKept v s k (found-IsOther u v s o e)
