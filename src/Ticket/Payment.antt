-- ===== src/Ticket/Payment.antt =====
-- ticket-service/src/services/ticket/handlers/PaymentCompletionHandler.js. The lock that it releases
-- is in the store of IdempotencyHelper.js, under a key that no creation of a ticket has taken.
pub mod Delivery
pub mod Ready
use metro_backend.Prelude.{
  ℕ, ◌+◌, ◌*◌, ◌≡◌, refl, Bool, true, false, not, ◌&&◌, String, str_eq, Option, none, some, List,
  [], ◌∷◌, any, if◌then◌else◌, ◌>>=◌, ◌>>◌, pure, get_state, arith, ok, err, Result,
}
use metro_backend.Ticket.{
  Ticket, System, Handler, Status, active, inactive, pending_payment, used, expired, is_status,
  update, publish_ticket_activated, swallow,
}
use metro_backend.Ticket.Calendar.{day_ms}

pub data Completion : Type 0 where
  payment_id_required invalid_state : Completion
  completed : Status → Completion

-- `if (ticket.fareId)`.
abbrev pub is_fare : Option String → Bool
is_fare none = false
is_fare (some fare) = not (str_eq fare "")

-- A short-term ticket, which has a fare, becomes active; a pass waits for at most thirty days.
unfoldable pub determine_ticket_status_after_payment : Ticket → ℕ → Ticket
determine_ticket_status_after_payment ticket now =
    if is_fare ticket.fare_id
    then record ticket { status = active; activated_at = some now }
    else record ticket { status = inactive; activated_at = some (now + 30 * day_ms) }

unfoldable pub validate_ticket_for_completion : Ticket → Bool
validate_ticket_for_completion ticket = any (is_status ticket.status) (pending_payment ∷ [])

-- Published only if the ticket is active now.
abbrev pub publish_if_active : Ticket → Handler (Unit {0})
publish_if_active ticket s =
    if is_status ticket.status active
    then swallow (publish_ticket_activated ticket) s
    else (ok tt, s)

unfoldable pub process_payment_completion : Ticket → String → Handler Completion
process_payment_completion ticket payment_id s =
    if str_eq payment_id ""
    then (ok payment_id_required, s)
    else if any (is_status ticket.status) (active ∷ used ∷ expired ∷ [])
    then (ok invalid_state, s)
    else if not (validate_ticket_for_completion ticket)
    then (ok invalid_state, s)
    else (do
      updated ← update (determine_ticket_status_after_payment ticket s.now)
      publish_if_active updated
      pure (completed updated.status))
        s
