-- ===== src/Ticket/Activation.antt =====
-- ticket-service/src/services/ticket/domain/TicketActivationService.js, `Ticket.startCountDown` of
-- the model, and `_activateTicketInternal` of TicketService.js.
pub mod Term
use metro_backend.Prelude.{
  String, ◌≡◌, refl, Bool, true, false, not, ◌&&◌, Option, none, some, str_eq, if◌then◌else◌, ◌>>=◌,
  ◌>>◌, pure, throw, require, get_state, arith, ok, err,
}
use metro_backend.Ticket.{
  Ticket, System, Handler, is_short_term, is_status, active, inactive, ticket_not_found, not_owner,
  not_long_term, already_active, not_paid, with_ticket, update, publish_ticket_activated, swallow,
}
use metro_backend.Ticket.Calendar.{calculate_validity_period}

unfoldable pub activate_long_term_ticket : Ticket → Handler Ticket
activate_long_term_ticket ticket = do
  require (not (is_short_term ticket.ticket_type)) not_long_term
  require (not (is_status ticket.status active)) already_active
  require (is_status ticket.status inactive) not_paid
  s ← get_state
  let (valid_from, valid_until) = calculate_validity_period ticket.ticket_type s.now
  updated_ticket ← update (record ticket {
    status = active;
    valid_from = some valid_from;
    valid_until = some valid_until;
    activated_at = some s.now;
  })
  swallow (publish_ticket_activated updated_ticket)
  pure updated_ticket

unfoldable pub start_count_down : String → Handler Ticket
start_count_down ticket_id = with_ticket ticket_id ticket_not_found activate_long_term_ticket

-- `passengerId && ticket.passengerId !== passengerId`; the empty text is false.
abbrev pub owned_by : Option String → Ticket → Bool
owned_by none ticket = true
owned_by (some p) ticket =
    if str_eq p "" then true else elim ticket.passenger_id [ none ↦ false | some q ↦ str_eq q p ]

unfoldable pub activate_owned : String → Option String → Ticket → Handler Ticket
activate_owned ticket_id passenger_id ticket = do
  require (owned_by passenger_id ticket) not_owner
  start_count_down ticket_id

unfoldable pub activate_ticket_internal : String → Option String → Handler Ticket
activate_ticket_internal ticket_id passenger_id =
    with_ticket ticket_id ticket_not_found (activate_owned ticket_id passenger_id)
