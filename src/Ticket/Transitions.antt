-- ===== src/Ticket/Transitions.antt =====
-- ticket-service/src/services/ticket/services/TicketStatusService.js, and `cancelTicket` of
-- TicketService.js. `cancelledAt` and `cancellationReason` are no columns of the model, so the
-- writes of them are dropped.
pub mod Progress
use metro_backend.Prelude.{
  ℕ, ◌≡◌, refl, Bool, true, false, not, ◌&&◌, String, Option, none, some, List, [], ◌∷◌, ◌++◌, any,
  if◌then◌else◌, ◌>>=◌, ◌>>◌, pure, throw, require, get_state, arith, ok, err, Result,
}
use metro_backend.Ticket.{
  Ticket, System, Handler, Status, Failure, active, inactive, pending_payment, used, expired,
  cancelled, abused, is_status, ticket_not_found, bad_status, bad_transition, not_owner,
  already_used, already_cancelled, with_ticket, update,
}
use metro_backend.Ticket.Calendar.{valid_until_of}
use metro_backend.Ticket.Activation.{owned_by}

unfoldable pub valid_statuses : List Status
valid_statuses = active ∷ inactive ∷ pending_payment ∷ used ∷ expired ∷ cancelled ∷ []

unfoldable pub get_valid_transitions : Status → List Status
get_valid_transitions pending_payment = active ∷ cancelled ∷ []
get_valid_transitions inactive = active ∷ cancelled ∷ []
get_valid_transitions active = used ∷ expired ∷ cancelled ∷ []
get_valid_transitions used = cancelled ∷ []
get_valid_transitions expired = cancelled ∷ []
get_valid_transitions cancelled = []
get_valid_transitions abused = []

unfoldable pub validate_status_transition : Status → Status → Bool
unfolding get_valid_transitions
validate_status_transition current new = any (is_status new) (get_valid_transitions current)

-- The first activation of an inactive ticket that has no term yet.
abbrev starts_term : Ticket → Bool
starts_term ticket =
    is_status ticket.status inactive && elim ticket.valid_from [ none ↦ true | some _ ↦ false ]

unfoldable pub add_status_specific_fields : Status → Ticket → ℕ → Ticket
add_status_specific_fields active ticket now =
    if starts_term ticket
    then record ticket {
      status = active;
      valid_from = some now;
      valid_until = some (valid_until_of ticket.ticket_type now);
      activated_at = some now;
    }
    else record ticket { status = active }
add_status_specific_fields used ticket now = record ticket {
  status = used;
  used_list = ticket.used_list ++ now ∷ [];
}
add_status_specific_fields cancelled ticket now = record ticket {
  status = cancelled;
  is_active = false;
}
add_status_specific_fields inactive ticket now = record ticket { status = inactive }
add_status_specific_fields pending_payment ticket now = record ticket { status = pending_payment }
add_status_specific_fields expired ticket now = record ticket { status = expired }
add_status_specific_fields abused ticket now = record ticket { status = abused }

unfoldable pub change_status : Status → Ticket → Handler Ticket
change_status new_status ticket = do
  require (validate_status_transition ticket.status new_status)
      (bad_transition ticket.status new_status)
  s ← get_state
  update (add_status_specific_fields new_status ticket s.now)

unfoldable pub update_ticket_status : String → Status → Handler Ticket
update_ticket_status ticket_id new_status = do
  require (any (is_status new_status) valid_statuses) bad_status
  with_ticket ticket_id ticket_not_found (change_status new_status)

unfoldable pub cancel_found : Option String → Ticket → Handler Ticket
cancel_found passenger_id ticket = do
  require (owned_by passenger_id ticket) not_owner
  require (not (is_status ticket.status used)) already_used
  require (not (is_status ticket.status cancelled)) already_cancelled
  update (record ticket { status = cancelled; is_active = false })

unfoldable pub undefined_on_error :
    Result Failure Ticket × System → Result Failure (Option Ticket) × System
undefined_on_error (ok t, s) = (ok (some t), s)
undefined_on_error (err e, s) = (ok none, s)

-- The `catch` logs and throws nothing, so the caller sees `undefined`.
unfoldable pub cancel_ticket : String → Option String → Handler (Option Ticket)
cancel_ticket ticket_id passenger_id s =
    undefined_on_error (with_ticket ticket_id ticket_not_found (cancel_found passenger_id) s)
