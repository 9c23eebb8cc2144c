-- ===== src/Ticket/Payment/Delivery.antt =====
-- The events `payment.completed` of PaymentCompletionHandler.js, delivered once and again.
use metro_backend.Prelude.{
  ◌+◌, ◌*◌, if◌then◌else◌, ℕ, ◌≡◌, false, String, some, str_eq, eq_iff, arith, ok,
}
use metro_backend.Ticket.{
  Ticket, Status, System, find_by_pk, find_by_pk-save, save, find_by_pk-ticket_id,
}
use metro_backend.Ticket.Calendar.{day_ms}
use metro_backend.Ticket.Payment.{
  is_fare, completed, determine_ticket_status_after_payment, validate_ticket_for_completion,
  process_payment_completion,
}
use metro_backend.Ticket.Events.{
  complete_payment, set_purchase_date, process_payment_completed_event,
}

abbrev pub paid_status : Ticket → Status
paid_status t = if is_fare t.fare_id then Status.active else Status.inactive

abbrev pub completed_row : Ticket → ℕ → Ticket
completed_row t now = record (determine_ticket_status_after_payment t now) {
  purchase_date = some now;
}

-- The row of a ticket that is paid for.
abbrev pub paid_row : Ticket → ℕ → Ticket
paid_row t now = record t {
  status = paid_status t;
  purchase_date = some now;
  activated_at = some (if is_fare t.fare_id then now else now + 30 * day_ms);
}

module _ (id payment : String) (s : System) (t : Ticket) where
  pub completed_state :
      find_by_pk id s.tickets ≡ some t
      → str_eq payment "" ≡ false
      → t.status ≡ Status.pending_payment
      → ((process_payment_completed_event id payment s).0 ≡ ok (completed (paid_status t)))
        × (find_by_pk id (process_payment_completed_event id payment s).1.tickets
            ≡ some (completed_row t s.now))
  unfolding process_payment_completed_event complete_payment process_payment_completion
      validate_ticket_for_completion determine_ticket_status_after_payment set_purchase_date
  completed_state e p st =
      let u = determine_ticket_status_after_payment t s.now in
      ground (
        arith,
        find_by_pk-save id u s.tickets,
        find_by_pk-save t.ticket_id u s.tickets,
        find_by_pk-save id (completed_row t s.now) (save u s.tickets),
        find_by_pk-ticket_id id s.tickets t e,
        eq_iff t.ticket_id id,
      )
