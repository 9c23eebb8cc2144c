-- ===== src/Ticket/Transitions/Progress.antt =====
-- The status machine of TicketStatusService.js moves forward only.
use metro_backend.Prelude.{ℕ, ◌≡◌, ◌<◌, true, false, String, some, arith, ok, is_ok, eq_iff}
use metro_backend.Ticket.{Ticket, Status, System, find_by_pk, find_by_pk-save, find_by_pk-ticket_id}
use metro_backend.Ticket.Transitions.{
  validate_status_transition, change_status, update_ticket_status, add_status_specific_fields,
}

-- How far a ticket is on its way from the payment to the end.
unfoldable pub stage : Status → ℕ
stage Status.pending_payment = 0
stage Status.inactive = 0
stage Status.active = 1
stage Status.used = 2
stage Status.expired = 2
stage Status.cancelled = 3
stage Status.abused = 3

pub changed_fields :
    (new : Status) (t : Ticket) (now : ℕ)
    → ((add_status_specific_fields new t now).status ≡ new)
      × ((add_status_specific_fields new t now).ticket_id ≡ t.ticket_id)
unfolding add_status_specific_fields
changed_fields new t now = ground arith

transition-stage : (a b : Status) → validate_status_transition a b ≡ true → stage a < stage b
unfolding stage validate_status_transition
transition-stage a b h = ground arith

-- A change of status that is answered makes the status of the row the one asked for, and brings the
-- ticket to a later stage than it was: no sequence of changes leads back, and a ticket that is
-- cancelled, or locked for abuse, is not changed any more.
pub update_ticket_status-stage :
    (id : String) (new : Status) (s : System) (t u : Ticket)
    → find_by_pk id s.tickets ≡ some t
    → (update_ticket_status id new s).0 ≡ ok u
    → (u.status ≡ new)
      × (stage t.status < stage u.status)
      × (find_by_pk id (update_ticket_status id new s).1.tickets ≡ some u)
unfolding update_ticket_status change_status
update_ticket_status-stage id new s t u e h =
    let v = add_status_specific_fields new t s.now in
    ground (
      arith,
      find_by_pk-save id v s.tickets,
      find_by_pk-ticket_id id s.tickets t e,
      eq_iff t.ticket_id id,
      changed_fields new t s.now,
      transition-stage t.status new,
    )

-- A change of status that is refused, for an unknown status, an unknown ticket or a transition that
-- the table lacks, changes nothing.
update_ticket_status-refused :
    (id : String) (new : Status) (s : System)
    → is_ok (update_ticket_status id new s).0 ≡ false
    → (update_ticket_status id new s).1 ≡ s
unfolding update_ticket_status change_status
update_ticket_status-refused id new s h = ground arith
