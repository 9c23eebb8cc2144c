-- ===== src/Ticket/Events.antt =====
-- The payment events that ticket-service/src/events/payment.consumer.event.js hands to
-- ticket-service/src/controllers/ticket.controller.js.
use metro_backend.Prelude.{Result, Option, String, none, some, if◌then◌else◌, ◌>>=◌, ◌>>◌, pure, ok}
use metro_backend.Ticket.{
  Ticket, System, Failure, Handler, cancelled, pending_payment, is_status, ticket_not_found,
  with_ticket, find_by_pk, update,
}
use metro_backend.Ticket.Transitions.{update_ticket_status}
use metro_backend.Ticket.Payment.{Completion, completed, process_payment_completion}

-- `updateTicket(ticketId, { purchaseDate })`.
unfoldable pub set_purchase_date : String → Handler Ticket
set_purchase_date ticket_id =
    with_ticket ticket_id ticket_not_found
      λ ticket s. update (record ticket { purchase_date = some s.now }) s

abbrev after_completion : String → Completion → Handler Completion
after_completion ticket_id (completed status) = do
  set_purchase_date ticket_id
  pure (completed status)
after_completion ticket_id refused = pure refused

unfoldable pub complete_payment : String → Ticket → Handler Completion
complete_payment payment_id ticket = do
  result ← process_payment_completion ticket payment_id
  after_completion ticket.ticket_id result

-- `getTicketById` throws where no ticket has the id.
unfoldable pub process_payment_completed_event : String → String → Handler Completion
process_payment_completed_event ticket_id payment_id =
    with_ticket ticket_id ticket_not_found (complete_payment payment_id)

-- A failure inside is logged, and the event counts as handled.
unfoldable pub process_payment_failed_event : String → Handler (Unit {0})
process_payment_failed_event ticket_id s = elim (find_by_pk ticket_id s.tickets) [
  | none ↦ (ok tt, s)
  | some ticket ↦
      if is_status ticket.status cancelled
      then (ok tt, s)
      else (ok tt, (update_ticket_status ticket_id cancelled s).1)
]

unfoldable pub process_payment_cancelled_event : String → Handler (Unit {0})
process_payment_cancelled_event ticket_id = do update_ticket_status ticket_id cancelled; pure tt

abbrev caught : Result Failure Ticket × System → Result Failure (Unit {0}) × System
caught (r, s) = (ok tt, s)

abbrev ready_found : Option Ticket → String → Handler (Unit {0})
ready_found none ticket_id s = (ok tt, s)
ready_found (some ticket) ticket_id s =
    if is_status ticket.status pending_payment
    then (ok tt, s)
    else caught (update_ticket_status ticket_id pending_payment s)

-- What is written to the cache of payments is left out; an error is only logged.
unfoldable pub process_payment_ready_event : String → Handler (Unit {0})
process_payment_ready_event ticket_id s = ready_found (find_by_pk ticket_id s.tickets) ticket_id s
