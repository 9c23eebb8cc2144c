-- ===== src/Ticket/Rules.antt =====
-- Rules for what holds of the state that a handler leaves, one for each way to build a handler.
use metro_backend.Prelude.{
  ◌≡◌, refl, Bool, true, false, String, Option, none, some, ok, err, Result, ap, require, ◌>>◌,
}
use metro_backend.Ticket.{Ticket, Failure, System, Handler, find_by_pk, on_found, with_ticket}
use metro_backend.Ticket.Usage.{rethrow_reference_error}
use metro_backend.Ticket.Transitions.{undefined_on_error}

pub with_ticket-found :
    {A : Type 0} (id : String) (s : System) {t : Ticket} (e : Failure) (f : Ticket → Handler A)
    → find_by_pk id s.tickets ≡ some t
    → with_ticket id e f s ≡ f t s
with_ticket-found id s e f found = ap (λ o. on_found o e f s) found

module _ (P : System → Type 0) {A : Type 0} where
  pub rethrow_state : (r : Result Failure A × System) → P r.1 → P (rethrow_reference_error r).1
  unfolding rethrow_reference_error
  rethrow_state (ok a, s) h = h
  rethrow_state (err e, s) h = h

  pub on_found_state :
      (o : Option Ticket) (e : Failure) (f : Ticket → Handler A) (s : System)
      → P s
      → ((t : Ticket) → o ≡ some t → P (f t s).1)
      → P (on_found o e f s).1
  on_found_state none e f s h k = h
  on_found_state (some t) e f s h k = k t refl

  pub with_ticket_state :
      (id : String) (e : Failure) (f : Ticket → Handler A) (s : System)
      → P s
      → ((t : Ticket) → find_by_pk id s.tickets ≡ some t → P (f t s).1)
      → P (with_ticket id e f s).1
  with_ticket_state id e f s = on_found_state (find_by_pk id s.tickets) e f s

  pub require_state :
      (b : Bool) (e : Failure) (f : Handler A) (s : System)
      → P s
      → (b ≡ true → P (f s).1)
      → P ((require b e >> f) s).1
  require_state true e f s h k = k refl
  require_state false e f s h k = h

module _ (P : System → Type 0) where
  pub undefined_on_error_state :
      (r : Result Failure Ticket × System) → P r.1 → P (undefined_on_error r).1
  unfolding undefined_on_error
  undefined_on_error_state (ok t, s) h = h
  undefined_on_error_state (err e, s) h = h
