-- ===== src/Ticket/Validator.antt =====
-- ticket-service/src/services/ticket/services/TicketValidatorService.js. In a comparison with a date
-- `null` counts as 0.
pub mod Reasons
pub mod Owner
use metro_backend.Prelude.{
  ℕ, ◌≡◌, refl, Bool, true, false, not, ◌&&◌, String, str_eq, Option, none, some, ltb, leb,
  if◌then◌else◌, ◌<◌, ◌↔◌, arith, ◌>>=◌, pure, or_throw, ok, err, Result,
}
use metro_backend.Ticket.{
  Ticket, System, Handler, Status, active, is_status, is_short_term, find_by_pk, with_ticket,
  ticket_not_found,
}

abbrev pub date_or_zero : Option ℕ → ℕ
date_or_zero none = 0
date_or_zero (some t) = t

pub data Validation : Type 0 where
  valid : Validation
  not_found has_expired not_yet_valid deactivated not_valid wrong_entry : Validation
  has_status : Status → Validation

unfoldable pub is_expired : Ticket → ℕ → Bool
is_expired ticket now = ltb (date_or_zero ticket.valid_until) now

unfoldable pub is_valid : Ticket → ℕ → Bool
is_valid ticket now =
    is_status ticket.status active
    && (ticket.is_active
        && (leb (date_or_zero ticket.valid_from) now && leb now (date_or_zero ticket.valid_until)))

-- The reason is looked for test by test; a ticket that passes them all counts as valid.
unfoldable pub validation_of : Ticket → ℕ → Validation
validation_of ticket now =
    if is_valid ticket now
    then valid
    else if is_expired ticket now
    then has_expired
    else if ltb now (date_or_zero ticket.valid_from)
    then not_yet_valid
    else if not (is_status ticket.status active)
    then has_status ticket.status
    else if not ticket.is_active
    then deactivated
    else valid

unfoldable pub validate_ticket : String → System → Validation
validate_ticket ticket_id s = elim (find_by_pk ticket_id s.tickets) [
  | none ↦ not_found
  | some ticket ↦ validation_of ticket s.now
]

pub data Gate : Type 0 where
  entry exit : Gate

-- `===` of a column that may be null and a text.
abbrev pub is_equal : Option String → String → Bool
is_equal none id = false
is_equal (some o) id = str_eq o id

unfoldable pub validate_entry : Ticket → String → Validation
validate_entry ticket station_id =
    if is_equal ticket.origin_station_id station_id then valid else wrong_entry

-- Every station is an exit.
unfoldable pub validate_exit : Ticket → String → Validation
validate_exit ticket station_id = valid

abbrev gate_check : Gate → Ticket → String → Validation
gate_check entry ticket station_id = validate_entry ticket station_id
gate_check exit ticket station_id = validate_exit ticket station_id

unfoldable pub gate_validation : String → Gate → Ticket → Handler Validation
gate_validation station_id gate ticket s = (
  ok (
      if not (is_valid ticket s.now)
      then (if is_expired ticket s.now then has_expired else not_valid)
      else if not (is_short_term ticket.ticket_type)
      then valid
      else gate_check gate ticket station_id),
  s,
)

unfoldable pub validate_ticket_at_gate : String → String → Gate → Handler Validation
validate_ticket_at_gate ticket_id station_id gate =
    with_ticket ticket_id ticket_not_found (gate_validation station_id gate)

unfoldable pub validate_ownership : String → String → System → Bool
validate_ownership ticket_id passenger_id s = elim (find_by_pk ticket_id s.tickets) [
  | none ↦ false
  | some ticket ↦ is_equal ticket.passenger_id passenger_id
]
