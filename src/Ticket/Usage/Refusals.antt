-- ===== src/Ticket/Usage/Refusals.antt =====
-- What the gate of TicketService.js leaves behind when it refuses.
use metro_backend.Prelude.{
  ◌≡◌, refl, true, false, String, Option, none, some, arith, ok, err, is_ok, Result, continue,
}
use metro_backend.Ticket.{Ticket, System, Failure, reference_error, find_by_pk}
use metro_backend.Ticket.Abuse.{Verdict, verdict_of, track_and_detect_abuse}
use metro_backend.Ticket.Usage.{
  use_now, rethrow_reference_error, record_use, short_term_use, use_short_term, use_long_term,
  handle_use_short_term_ticket, handle_use_long_term_ticket, handle_use, track_again, use_found,
  use_ticket,
}

record_use-is_ok : (t : Ticket) (s : System) → is_ok (record_use t s).0 ≡ true
unfolding record_use track_and_detect_abuse
record_use-is_ok t s = go (verdict_of s.now t)
  where
    go : (v : Verdict) → is_ok (record_use t s).0 ≡ true
    go v = ground arith

module _ (s : System) where
  use_short_term-refused :
      (t : Ticket) → is_ok (use_short_term t s).0 ≡ false → (use_short_term t s).1 ≡ s
  unfolding use_short_term
  use_short_term-refused t h = go (short_term_use t s.now) h
    where
      go :
          (r : Result Failure Ticket)
          → is_ok (continue (r, s) record_use).0 ≡ false
          → (continue (r, s) record_use).1 ≡ s
      go (err e) h = refl
      go (ok u) h = ground (arith, record_use-is_ok u s)

  use_long_term-refused :
      (t : Ticket) → is_ok (use_long_term t s).0 ≡ false → (use_long_term t s).1 ≡ s
  unfolding use_long_term
  use_long_term-refused t h = ground (arith, record_use-is_ok (use_now t s.now) s)

  handle_use-refused : (t : Ticket) → is_ok (handle_use t s).0 ≡ false → (handle_use t s).1 ≡ s
  unfolding handle_use handle_use_short_term_ticket handle_use_long_term_ticket
      rethrow_reference_error
  handle_use-refused t h = go (find_by_pk t.ticket_id s.tickets) refl
    where
      go : (o : Option Ticket) → find_by_pk t.ticket_id s.tickets ≡ o → (handle_use t s).1 ≡ s
      go none e = ground arith
      go (some u) e = ground (arith, use_short_term-refused u, use_long_term-refused u)

  track_again-is_ok : (id : String) (r : Ticket) → is_ok (track_again id r s).0 ≡ true
  unfolding track_again
  track_again-is_ok id r = ground arith

tracked-refused :
    (r : Result Failure Ticket × System) (id : String)
    → is_ok (continue r (track_again id)).0 ≡ false
    → (is_ok r.0 ≡ false) × ((continue r (track_again id)).1 ≡ r.1)
tracked-refused (ok t, s) id h = ground (arith, track_again-is_ok s id t)
tracked-refused (err e, s) id h = (refl, refl)

use_found-refused :
    (t : Ticket) (s : System) → is_ok (use_found t s).0 ≡ false → (use_found t s).1 ≡ s
unfolding use_found
use_found-refused t s h =
    ground (arith, handle_use-refused s t, tracked-refused (handle_use t s) t.ticket_id)

-- The gate that refuses a ticket by its id changes nothing, and whatever the reason was, its caller
-- gets the engine's ReferenceError on `ticket` in place of it.
pub use_ticket-refused :
    (id : String) (s : System)
    → is_ok (use_ticket id s).0 ≡ false
    → use_ticket id s ≡ (err (reference_error "ticket"), s)
unfolding use_ticket rethrow_reference_error
use_ticket-refused id s h = go (find_by_pk id s.tickets) refl
  where
    go :
        (o : Option Ticket)
        → find_by_pk id s.tickets ≡ o
        → use_ticket id s ≡ (err (reference_error "ticket"), s)
    go none e = ground arith
    go (some u) e = ground (arith, use_found-refused u s)
