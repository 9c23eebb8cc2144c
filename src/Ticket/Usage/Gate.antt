-- ===== src/Ticket/Usage/Gate.antt =====
-- What the gate of TicketService.js does with a ticket, from the scan of its id to the answer.
use metro_backend.Prelude.{ℕ, ◌≡◌, String, some, [], ◌∷◌, any, eq_iff, arith, ok, is_ok}
use metro_backend.Ticket.{
  Ticket, TicketType, Status, System, find_by_pk, find_by_pk-save, find_by_pk-ticket_id,
  find_by_pk_self, is_status, save, null_access, ticket_not_found,
}
use metro_backend.Ticket.Rules.{with_ticket-found}
use metro_backend.Ticket.Abuse.{no_abuse, verdict_of, track_and_detect_abuse}
use metro_backend.Ticket.Usage.{
  use_now, short_term_use, use_short_term, handle_use_short_term_ticket, handle_use, track_again,
  use_found, use_ticket, rethrow_reference_error, record_use,
}

-- The row after one use of a oneway ticket.
abbrev pub used_once : Ticket → ℕ → Ticket
used_once t now = record (use_now t now) { status = Status.used }

module _ (s : System) (t : Ticket) where
  unabused-record_use :
      verdict_of s.now t ≡ no_abuse
      → record_use t s ≡ (ok t, record s { tickets = save t s.tickets })
  unfolding record_use track_and_detect_abuse
  unabused-record_use h = ground arith

  oneway-handle_use :
      find_by_pk t.ticket_id s.tickets ≡ some t
      → t.ticket_type ≡ TicketType.oneway
      → t.used_list ≡ []
      → handle_use t s
        ≡ (ok (used_once t s.now), record s { tickets = save (used_once t s.now) s.tickets })
  unfolding handle_use handle_use_short_term_ticket use_short_term short_term_use
      rethrow_reference_error record_use track_and_detect_abuse verdict_of
  oneway-handle_use e o n =
      ground (arith, with_ticket-found t.ticket_id s null_access use_short_term e)

unabused-track_again :
    (id : String) (r u : Ticket) (s : System)
    → find_by_pk id s.tickets ≡ some u
    → verdict_of s.now u ≡ no_abuse
    → track_again id r s ≡ (ok r, s)
unfolding track_again track_and_detect_abuse
unabused-track_again id r u s e h = ground arith

once-no_abuse :
    (t : Ticket) (now : ℕ) → t.used_list ≡ [] → verdict_of now (used_once t now) ≡ no_abuse
unfolding verdict_of
once-no_abuse t now n = ground arith

-- A oneway ticket that was never used is let through exactly where its status is active, inactive or
-- pending_payment: a ticket that nobody has paid for opens the gate.
pub use_ticket-oneway :
    (id : String) (s : System) (t : Ticket)
    → find_by_pk id s.tickets ≡ some t
    → t.ticket_type ≡ TicketType.oneway
    → t.used_list ≡ []
    → is_ok (use_ticket id s).0
      ≡ any (is_status t.status) (Status.active ∷ Status.inactive ∷ Status.pending_payment ∷ [])
unfolding use_ticket use_found rethrow_reference_error
use_ticket-oneway id s t e o n =
    let u = used_once t s.now in
    ground (
      arith,
      with_ticket-found id s ticket_not_found use_found e,
      oneway-handle_use s t (find_by_pk_self id s.tickets t e) o n,
      find_by_pk-save t.ticket_id u s.tickets,
      find_by_pk-ticket_id id s.tickets t e,
      eq_iff t.ticket_id t.ticket_id,
      unabused-track_again t.ticket_id u u (record s { tickets = save u s.tickets }),
      once-no_abuse t s.now n,
    )
