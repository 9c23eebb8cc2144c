-- ===== src/Ticket/UseLimit/Jobs.antt =====
-- Creation, activation, payment and the jobs against the limit on uses.
use metro_backend.Prelude.{
  ℕ, ◌≡◌, true, String, Option, none, some, arith, continue_state, subst, sym, All, refl,
}
use metro_backend.Ticket.{
  Ticket, Status, System, find_by_pk, update, ticket_not_found, publish_ticket_activated,
}
use metro_backend.Ticket.Rows.{Distinct, append-All, append-Distinct}
use metro_backend.Ticket.Rules.{with_ticket_state}
use metro_backend.Ticket.Activation.{
  activate_long_term_ticket, start_count_down, activate_owned, activate_ticket_internal,
}
use metro_backend.Ticket.Payment.{
  process_payment_completion, determine_ticket_status_after_payment, validate_ticket_for_completion,
}
use metro_backend.Ticket.Events.{
  set_purchase_date, complete_payment, process_payment_completed_event,
  process_payment_failed_event, process_payment_cancelled_event,
}
use metro_backend.Ticket.Calendar.{calculate_validity_period}
use metro_backend.Ticket.Requests.{Booking, create, insert}
use metro_backend.Ticket.UseLimit.{
  IsWithinLimit, RowsWithinLimit, update-RowsWithinLimit, found-IsWithinLimit, pass_limit,
}
use metro_backend.Ticket.UseLimit.Handlers.{update_ticket_status-RowsWithinLimit}

create-IsWithinLimit : (b : Booking) → IsWithinLimit (create b)
unfolding create
create-IsWithinLimit b = ground arith

pub insert-RowsWithinLimit :
    (b : Booking) (s : System)
    → RowsWithinLimit s
    → RowsWithinLimit (insert (create b) (find_by_pk b.ticket_id s.tickets) s)
unfolding create
insert-RowsWithinLimit b s w = go (find_by_pk b.ticket_id s.tickets) refl
  where
    go :
        (o : Option Ticket)
        → find_by_pk b.ticket_id s.tickets ≡ o
        → RowsWithinLimit (insert (create b) o s)
    go none e = record {
      rows = append-All IsWithinLimit s.tickets (create b) w.rows (create-IsWithinLimit b);
      keyed = append-Distinct (create b) s.tickets e w.keyed;
    }
    go (some t) e = w

same_rows-RowsWithinLimit :
    (s u : System) → u.tickets ≡ s.tickets → RowsWithinLimit s → RowsWithinLimit u
same_rows-RowsWithinLimit s u e w = record {
  rows = subst (All IsWithinLimit) (sym e) w.rows;
  keyed = subst Distinct (sym e) w.keyed;
}

-- A publish leaves the table as it is.
pub publish_tickets :
    (t : Ticket) (s : System) → (publish_ticket_activated t s).1.tickets ≡ s.tickets
publish_tickets t s = ground arith

-- A pass that is written and announced.
pub written-RowsWithinLimit :
    (t : Ticket) (s : System)
    → RowsWithinLimit s
    → IsWithinLimit t
    → RowsWithinLimit (publish_ticket_activated t (update t s).1).1
written-RowsWithinLimit t s w l =
    same_rows-RowsWithinLimit (update t s).1 _ (publish_tickets t (update t s).1)
      (update-RowsWithinLimit t s l w)

activate_long_term-RowsWithinLimit :
    (t : Ticket) (s : System)
    → RowsWithinLimit s
    → RowsWithinLimit (activate_long_term_ticket t s).1
unfolding activate_long_term_ticket
activate_long_term-RowsWithinLimit t s w =
    let (from, until) = calculate_validity_period t.ticket_type s.now in
    let u : Ticket = record t {
      status = Status.active;
      valid_from = some from;
      valid_until = some until;
      activated_at = some s.now;
    } in
    ground (arith, written-RowsWithinLimit u s w, pass_limit u u.used_list Status.active)

start_count_down-RowsWithinLimit :
    (id : String) (s : System) → RowsWithinLimit s → RowsWithinLimit (start_count_down id s).1
unfolding start_count_down
start_count_down-RowsWithinLimit id s w =
    with_ticket_state RowsWithinLimit id ticket_not_found activate_long_term_ticket s w
      λ t _. activate_long_term-RowsWithinLimit t s w

activate_owned-RowsWithinLimit :
    (id : String) (p : Option String) (t : Ticket) (s : System)
    → RowsWithinLimit s
    → RowsWithinLimit (activate_owned id p t s).1
unfolding activate_owned
activate_owned-RowsWithinLimit id p t s w = ground (arith, start_count_down-RowsWithinLimit id s w)

pub activate_ticket_internal-RowsWithinLimit :
    (id : String) (p : Option String) (s : System)
    → RowsWithinLimit s
    → RowsWithinLimit (activate_ticket_internal id p s).1
unfolding activate_ticket_internal
activate_ticket_internal-RowsWithinLimit id p s w =
    with_ticket_state RowsWithinLimit id ticket_not_found (activate_owned id p) s w
      λ t _. activate_owned-RowsWithinLimit id p t s w

set_purchase_date-RowsWithinLimit :
    (id : String) (s : System) → RowsWithinLimit s → RowsWithinLimit (set_purchase_date id s).1
unfolding set_purchase_date
set_purchase_date-RowsWithinLimit id s w =
    with_ticket_state RowsWithinLimit id ticket_not_found _ s w λ t found.
      update-RowsWithinLimit (record t { purchase_date = some s.now }) s
        (found-IsWithinLimit id s w t found) w

paid-IsWithinLimit :
    (t : Ticket) (now : ℕ)
    → validate_ticket_for_completion t ≡ true
    → IsWithinLimit t
    → IsWithinLimit (determine_ticket_status_after_payment t now)
unfolding validate_ticket_for_completion determine_ticket_status_after_payment
paid-IsWithinLimit t now h l = ground arith

payment-RowsWithinLimit :
    (t : Ticket) (payment : String) (s : System)
    → RowsWithinLimit s
    → IsWithinLimit t
    → RowsWithinLimit (process_payment_completion t payment s).1
unfolding process_payment_completion
payment-RowsWithinLimit t payment s w l =
    let u = determine_ticket_status_after_payment t s.now in
    ground
      (arith, written-RowsWithinLimit u s w, update-RowsWithinLimit u s, paid-IsWithinLimit t s.now)

complete_payment-RowsWithinLimit :
    (t : Ticket) (payment : String) (s : System)
    → RowsWithinLimit s
    → IsWithinLimit t
    → RowsWithinLimit (complete_payment payment t s).1
unfolding complete_payment
complete_payment-RowsWithinLimit t payment s w l =
    let after = payment-RowsWithinLimit t payment s w l in
    continue_state RowsWithinLimit (process_payment_completion t payment s) _ after
      λ r _. ground (arith, set_purchase_date-RowsWithinLimit t.ticket_id _ after)

pub payment_completed-RowsWithinLimit :
    (id payment : String) (s : System)
    → RowsWithinLimit s
    → RowsWithinLimit (process_payment_completed_event id payment s).1
unfolding process_payment_completed_event
payment_completed-RowsWithinLimit id payment s w =
    with_ticket_state RowsWithinLimit id ticket_not_found (complete_payment payment) s w
      λ t found. complete_payment-RowsWithinLimit t payment s w (found-IsWithinLimit id s w t found)

pub payment_failed-RowsWithinLimit :
    (id : String) (s : System)
    → RowsWithinLimit s
    → RowsWithinLimit (process_payment_failed_event id s).1
unfolding process_payment_failed_event
payment_failed-RowsWithinLimit id s w =
    ground (arith, update_ticket_status-RowsWithinLimit id Status.cancelled s w)

pub payment_cancelled-RowsWithinLimit :
    (id : String) (s : System)
    → RowsWithinLimit s
    → RowsWithinLimit (process_payment_cancelled_event id s).1
unfolding process_payment_cancelled_event
payment_cancelled-RowsWithinLimit id s w =
    ground (arith, update_ticket_status-RowsWithinLimit id Status.cancelled s w)
