-- ===== src/Examples/Terms.antt =====
-- Payment, activation, status changes, expiry and the rotating QR on small tables.
use metro_backend.Prelude.{
  ◌≡◌, ◌<◌, ◌+◌, ◌*◌, refl, some, [], ◌∷◌, true, ok, arith, length, keep, map,
}
use metro_backend.Ticket.{Ticket, Status, find_by_pk}
use metro_backend.Ticket.Calendar.{day_ms, valid_until_of}
use metro_backend.Ticket.Validator.{has_expired, validate_ticket}
use metro_backend.Ticket.Validator.Reasons.{validate_ticket-no_term}
use metro_backend.Ticket.Transitions.{
  update_ticket_status, change_status, valid_statuses, validate_status_transition,
  add_status_specific_fields,
}
use metro_backend.Ticket.Transitions.Progress.{stage, update_ticket_status-stage}
use metro_backend.Ticket.Rotation.{generate_code, verify_code}
use metro_backend.Ticket.Rotation.Drift.{verify_code-generate_code}
use metro_backend.Ticket.Expiry.{is_overdue, expire_tickets}
use metro_backend.Ticket.Expiry.Sweep.{expire_overdue, expire_tickets-sweep}
use metro_backend.Examples.{hash, table, single, paid_pass}

validate_ticket-no_term_example : validate_ticket "T1" (table paid_pass) ≡ has_expired
unfolding find_by_pk
validate_ticket-no_term_example =
    validate_ticket-no_term "T1" (table paid_pass) paid_pass refl refl (omega arith)

-- The pass after an administrator has set it active.
abbrev set_active : Ticket
set_active = record paid_pass {
  status = Status.active;
  valid_from = some 1_000_000;
  valid_until = some (1_000_000 + 7 * day_ms);
  activated_at = some 1_000_000;
}

update_ticket_status-stage_example :
    (Status.active ≡ Status.active)
    × (stage Status.inactive < stage Status.active)
    × (find_by_pk "T1" (update_ticket_status "T1" Status.active (table paid_pass)).1.tickets
        ≡ some set_active)
unfolding find_by_pk update_ticket_status change_status valid_statuses validate_status_transition
    add_status_specific_fields valid_until_of
update_ticket_status-stage_example =
    update_ticket_status-stage "T1" Status.active (table paid_pass) paid_pass set_active refl refl

verify_code-generate_code_example :
    verify_code hash "k" (generate_code hash "k" 59_000) 1 61_000 ≡ true
verify_code-generate_code_example =
    verify_code-generate_code hash "k" 59_000 61_000 1 (omega arith) (omega arith)

abbrev locked_pass : Ticket
locked_pass = record set_active { status = Status.abused }

abbrev overdue : Ticket
overdue = record single { valid_until = some 999_999 }

expire_tickets-sweep_example : expire_tickets (table overdue) ≡ (
  ok (length (keep (is_overdue 1_000_000) (overdue ∷ []))),
  record (table overdue) { tickets = map (expire_overdue 1_000_000) (overdue ∷ []) },
)
unfolding find_by_pk
expire_tickets-sweep_example = expire_tickets-sweep (table overdue) (refl, tt)
