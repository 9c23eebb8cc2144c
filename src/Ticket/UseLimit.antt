-- ===== src/Ticket/UseLimit.antt =====
-- How often a short-term ticket can be used, whatever the requests.
pub mod Handlers
pub mod Jobs
pub mod AnyOrder
use metro_backend.Prelude.{
  Bool-cases, ℕ, ◌≤◌, ◌+◌, ◌++◌, ◌≡◌, ◌⊎◌, inl, inr, Bool, true, false, String, Option, none, some,
  List, [], ◌∷◌, All, length, length-append, arith, ok, err, subst, sym, refl, ◌≢◌, Result, ◌>>=◌,
  pure, continue_state, continue,
}
use metro_backend.Ticket.{
  Ticket, TicketType, oneway, return, day_pass, weekly_pass, monthly_pass, yearly_pass,
  lifetime_pass, Status, System, Failure, Handler, update, with_ticket, null_access,
  ticket_not_found, find_by_pk_self, is_short_term, used, cancelled, abused, is_status, find_by_pk,
  save,
}
use metro_backend.Ticket.Rules.{rethrow_state, with_ticket_state, with_ticket-found}
use metro_backend.Ticket.Rows.{save-All, find_by_pk-All, Distinct, save-Distinct}
use metro_backend.Ticket.Abuse.{
  Verdict, act_on, two_within_ten_seconds, more_than_three_in_a_minute, no_abuse, verdict_of,
  track_and_detect_abuse,
}
use metro_backend.Ticket.Usage.{
  track_found, short_term_use, handle_use_short_term_ticket, rethrow_reference_error,
  handle_use_long_term_ticket, handle_use, record_use, use_short_term, use_long_term, used_up,
  use_now, use_found, use_ticket, track_again,
}
use metro_backend.Ticket.Transitions.{
  update_ticket_status, add_status_specific_fields, validate_status_transition,
}

abbrev Limit : TicketType → ℕ → Status → Type 0
Limit oneway n s = (n ≡ 0) ⊎ ((n ≡ 1) × ((s ≡ used) ⊎ (s ≡ cancelled)))
Limit return n s = (n ≤ 1) ⊎ ((n ≡ 2) × ((s ≡ used) ⊎ (s ≡ cancelled) ⊎ (s ≡ abused)))
Limit _ n s = Unit

abbrev pub IsWithinLimit : Ticket → Type 0
IsWithinLimit t = Limit t.ticket_type (length t.used_list) t.status

pub pass_limit :
    (t : Ticket) (l : List ℕ) (st : Status)
    → is_short_term t.ticket_type ≡ false
    → IsWithinLimit (record t { used_list = l; status = st })
pass_limit t l st h = ground arith

short_term_use-IsWithinLimit :
    (t u : Ticket) (now : ℕ)
    → is_status t.status used ≡ false
    → is_status t.status cancelled ≡ false
    → short_term_use t now ≡ ok u
    → IsWithinLimit t
    → IsWithinLimit u
unfolding short_term_use
short_term_use-IsWithinLimit t u now h k e w = ground (arith, length-append t.used_list (now ∷ []))

lock-IsWithinLimit :
    (now : ℕ) (t : Ticket)
    → verdict_of now t ≢ no_abuse
    → IsWithinLimit t
    → IsWithinLimit (record t { status = abused })
unfolding verdict_of
lock-IsWithinLimit now t h w = ground arith

pub record RowsWithinLimit (s : System) : Type 0 where
  pub rows : All IsWithinLimit s.tickets
  pub keyed : Distinct s.tickets

pub update-RowsWithinLimit :
    (t : Ticket) (s : System)
    → IsWithinLimit t
    → RowsWithinLimit s
    → RowsWithinLimit (record s { tickets = save t s.tickets })
update-RowsWithinLimit t s w h = record {
  rows = save-All IsWithinLimit t s.tickets w h.rows;
  keyed = save-Distinct t s.tickets h.keyed;
}

track-RowsWithinLimit :
    (t : Ticket) (s : System)
    → IsWithinLimit t
    → RowsWithinLimit s
    → RowsWithinLimit (track_and_detect_abuse t s).1
unfolding track_and_detect_abuse
track-RowsWithinLimit t s w h = go (verdict_of s.now t) refl
  where
    go : (v : Verdict) → verdict_of s.now t ≡ v → RowsWithinLimit (act_on v t s).1
    go no_abuse e = h
    go two_within_ten_seconds e =
        update-RowsWithinLimit _ s (lock-IsWithinLimit s.now t (λ k. cc) w) h
    go more_than_three_in_a_minute e =
        update-RowsWithinLimit _ s (lock-IsWithinLimit s.now t (λ k. cc) w) h

record_use-RowsWithinLimit :
    (t : Ticket) (s : System)
    → IsWithinLimit t
    → RowsWithinLimit s
    → RowsWithinLimit (record_use t s).1
unfolding record_use
record_use-RowsWithinLimit t s w h =
    let rows = update-RowsWithinLimit t s w h in
    continue_state RowsWithinLimit
      (track_and_detect_abuse t (record s { tickets = save t s.tickets })) _
      (track-RowsWithinLimit t _ w rows) (λ a e. track-RowsWithinLimit t _ w rows)

module _ (id : String) (s : System) (w : RowsWithinLimit s) where
  -- What a search finds is within its limit.
  pub found-IsWithinLimit : (t : Ticket) → find_by_pk id s.tickets ≡ some t → IsWithinLimit t
  found-IsWithinLimit t e = find_by_pk-All IsWithinLimit id s.tickets t e w.rows

  short_term-RowsWithinLimit :
      (t : Ticket)
      → find_by_pk id s.tickets ≡ some t
      → is_status t.status used ≡ false
      → is_status t.status cancelled ≡ false
      → RowsWithinLimit (handle_use_short_term_ticket id s).1
  unfolding handle_use_short_term_ticket use_short_term
  short_term-RowsWithinLimit t e h k =
      rethrow_state RowsWithinLimit (with_ticket id null_access use_short_term s) (
        subst (λ r. RowsWithinLimit r.1) (sym (with_ticket-found id s null_access use_short_term e))
          (continue_state RowsWithinLimit (short_term_use t s.now, s) record_use w
            λ u changed.
              record_use-RowsWithinLimit u s
                (short_term_use-IsWithinLimit t u s.now h k changed (found-IsWithinLimit t e)) w))

  long_term-RowsWithinLimit :
      (t : Ticket)
      → find_by_pk id s.tickets ≡ some t
      → is_short_term t.ticket_type ≡ false
      → RowsWithinLimit (handle_use_long_term_ticket id s).1
  unfolding handle_use_long_term_ticket
  long_term-RowsWithinLimit t e h =
      rethrow_state RowsWithinLimit (with_ticket id null_access use_long_term s) (
        subst (λ r. RowsWithinLimit r.1) (sym (with_ticket-found id s null_access use_long_term e))
          (unfold use_long_term in
            ground (arith, record_use-RowsWithinLimit (use_now t s.now) s (pass_limit t _ _ h) w)))

module _ (s : System) (w : RowsWithinLimit s) (t : Ticket) where
  pub handle_use-RowsWithinLimit :
      find_by_pk t.ticket_id s.tickets ≡ some t
      → is_status t.status used ≡ false
      → is_status t.status cancelled ≡ false
      → RowsWithinLimit (handle_use t s).1
  unfolding handle_use
  handle_use-RowsWithinLimit e h k = elim (Bool-cases (is_short_term t.ticket_type)) [
    | inl short ↦ rw short (short_term-RowsWithinLimit t.ticket_id s w t e h k)
    | inr long ↦ rw long (long_term-RowsWithinLimit t.ticket_id s w t e long)
  ]

track_again-RowsWithinLimit :
    (id : String) (r : Ticket) (s : System)
    → RowsWithinLimit s
    → RowsWithinLimit (track_again id r s).1
unfolding track_again
track_again-RowsWithinLimit id r s w = go (find_by_pk id s.tickets) refl
  where
    go : (o : Option Ticket) → find_by_pk id s.tickets ≡ o → RowsWithinLimit (track_found r o s).1
    go none e = w
    go (some u) e = track-RowsWithinLimit u s (found-IsWithinLimit id s w u e) w

-- What follows the gate's refusals.
use_and_track-RowsWithinLimit :
    (s : System) (t : Ticket)
    → find_by_pk t.ticket_id s.tickets ≡ some t
    → RowsWithinLimit s
    → is_status t.status used ≡ false
    → is_status t.status cancelled ≡ false
    → RowsWithinLimit (continue (handle_use t s) (track_again t.ticket_id)).1
use_and_track-RowsWithinLimit s t e w h k =
    let after = handle_use-RowsWithinLimit s w t e h k in
    continue_state RowsWithinLimit (handle_use t s) (track_again t.ticket_id) after
      λ r _. track_again-RowsWithinLimit t.ticket_id r _ after

use_found-RowsWithinLimit :
    (s : System) (t : Ticket)
    → find_by_pk t.ticket_id s.tickets ≡ some t
    → RowsWithinLimit s
    → RowsWithinLimit (use_found t s).1
unfolding use_found
use_found-RowsWithinLimit s t e w = ground (arith, use_and_track-RowsWithinLimit s t e w)

pub use_ticket-RowsWithinLimit :
    (id : String) (s : System) → RowsWithinLimit s → RowsWithinLimit (use_ticket id s).1
unfolding use_ticket
use_ticket-RowsWithinLimit id s w = rethrow_state RowsWithinLimit _ (
    with_ticket_state RowsWithinLimit id ticket_not_found use_found s w
      λ t found. use_found-RowsWithinLimit s t (find_by_pk_self id s.tickets t found) w)
