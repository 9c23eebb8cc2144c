-- ===== src/Ticket/Validator/Reasons.antt =====
-- What the two validations of TicketValidatorService.js answer.
use metro_backend.Prelude.{ℕ, ◌≡◌, ◌↔◌, ◌<◌, ◌≤◌, true, String, none, some, arith, ok}
use metro_backend.Ticket.{Ticket, Status, System, find_by_pk}
use metro_backend.Ticket.Validator.{
  valid, has_expired, is_valid, is_expired, validation_of, validate_ticket, exit,
  validate_ticket_at_gate, gate_validation, validate_exit, date_or_zero,
}

-- A ticket counts as valid exactly where it is active, not deactivated, and now lies within its
-- term: no ticket passes because no reason against it was found.
validation_of-valid :
    (t : Ticket) (now : ℕ)
    → (validation_of t now ≡ valid) ↔ (
        (t.status ≡ Status.active)
        × (t.is_active ≡ true)
        × (date_or_zero t.valid_from ≤ now)
        × (now ≤ date_or_zero t.valid_until))
unfolding validation_of is_valid is_expired
validation_of-valid t now = ground arith

-- A ticket that has no term yet, such as a pass that is paid for and not activated, is reported as
-- expired, at every time after the epoch.
pub validate_ticket-no_term :
    (id : String) (s : System) (t : Ticket)
    → find_by_pk id s.tickets ≡ some t
    → t.valid_until ≡ none
    → 0 < s.now
    → validate_ticket id s ≡ has_expired
unfolding validate_ticket validation_of is_valid is_expired
validate_ticket-no_term id s t e n h = ground arith

-- At an exit the gate's validation and the general one agree on which tickets are valid.
gate_exit-validate_ticket :
    (id station : String) (s : System) (t : Ticket)
    → find_by_pk id s.tickets ≡ some t
    → ((validate_ticket_at_gate id station exit s).0 ≡ ok valid) ↔ (validate_ticket id s ≡ valid)
unfolding validate_ticket_at_gate gate_validation validate_exit validate_ticket validation_of
    is_valid is_expired
gate_exit-validate_ticket id station s t e = ground arith
