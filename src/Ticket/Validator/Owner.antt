-- ===== src/Ticket/Validator/Owner.antt =====
-- `validateOwnership` of TicketValidatorService.js against the test of TicketService.js.
use metro_backend.Prelude.{◌≡◌, false, String, str_eq, some, arith}
use metro_backend.Ticket.{Ticket, System, find_by_pk}
use metro_backend.Ticket.Activation.{owned_by}
use metro_backend.Ticket.Validator.{validate_ownership}

-- For a passenger id that is not empty, the validation of the owner answers what the activation and
-- the cancellation of a ticket test before they act.
validate_ownership-owned_by :
    (id passenger : String) (s : System) (t : Ticket)
    → find_by_pk id s.tickets ≡ some t
    → str_eq passenger "" ≡ false
    → validate_ownership id passenger s ≡ owned_by (some passenger) t
unfolding validate_ownership
validate_ownership-owned_by id passenger s t e n = ground arith
