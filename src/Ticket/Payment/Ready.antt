-- ===== src/Ticket/Payment/Ready.antt =====
-- The event `ticket.payment_ready`, delivered early or late.
use metro_backend.Prelude.{
  ◌≡◌, refl, String, false, Bool-cases, Option-cases, inl, inr, some, err, ok,
}
use metro_backend.Ticket.{
  Ticket, Status, System, pending_payment, is_status, find_by_pk, bad_transition,
}
use metro_backend.Ticket.Transitions.{
  update_ticket_status, change_status, validate_status_transition, get_valid_transitions,
  valid_statuses,
}
use metro_backend.Ticket.Events.{process_payment_ready_event}

-- No status leads back to the wait for a payment.
never_back : (status : Status) → validate_status_transition status pending_payment ≡ false
unfolding validate_status_transition get_valid_transitions
never_back Status.active = refl
never_back Status.inactive = refl
never_back Status.pending_payment = refl
never_back Status.used = refl
never_back Status.expired = refl
never_back Status.cancelled = refl
never_back Status.abused = refl

way_back-refused :
    (t : Ticket) (s : System)
    → change_status pending_payment t s ≡ (err (bad_transition t.status pending_payment), s)
unfolding change_status
way_back-refused t s = rw (never_back t.status) refl

kept :
    (id : String) (s : System) (t : Ticket)
    → find_by_pk id s.tickets ≡ some t
    → (update_ticket_status id pending_payment s).1 ≡ s
unfolding update_ticket_status valid_statuses
kept id s t found = rw (found, way_back-refused t s) refl

-- The event changes no ticket, whenever it arrives: a ticket that waits is left alone, and one that
-- does not is refused the way back.
pub process_payment_ready_event-same :
    (id : String) (s : System) → process_payment_ready_event id s ≡ (ok tt, s)
unfolding process_payment_ready_event
process_payment_ready_event-same id s = elim (Option-cases (find_by_pk id s.tickets)) [
  | inl missing ↦ rw missing refl
  | inr (t, found) ↦ elim (Bool-cases (is_status t.status pending_payment)) [
    | inl waits ↦ rw (found, waits) refl
    | inr on ↦ rw (found, on, kept id s t found) refl
  ]
]
