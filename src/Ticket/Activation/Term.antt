-- ===== src/Ticket/Activation/Term.antt =====
-- A pass right after its activation.
use metro_backend.Prelude.{
  ℕ, ◌+◌, ◌*◌, ◌≡◌, ◌≤◌, ◌⊎◌, true, false, String, Option, some, arith, refl, eq_iff, inl, inr,
  is_ok,
}
use metro_backend.Ticket.{
  Ticket, TicketType, Status, System, find_by_pk, find_by_pk-save, find_by_pk-ticket_id,
  is_short_term,
}
use metro_backend.Ticket.Calendar.{day_ms, valid_until_of, add_years-century}
use metro_backend.Ticket.Activation.{
  activate_long_term_ticket, start_count_down, activate_ticket_internal, activate_owned, owned_by,
}
use metro_backend.Ticket.Validator.{validate_ticket, valid, validation_of, is_valid}

-- The length of a term.
abbrev pub IsTerm : TicketType → ℕ → Type 0
IsTerm TicketType.oneway ms = ms ≡ 30 * day_ms
IsTerm TicketType.return ms = ms ≡ 30 * day_ms
IsTerm TicketType.day_pass ms = ms ≡ 1 * day_ms
IsTerm TicketType.weekly_pass ms = ms ≡ 7 * day_ms
IsTerm TicketType.monthly_pass ms = ms ≡ 30 * day_ms
IsTerm TicketType.yearly_pass ms = ms ≡ 365 * day_ms
IsTerm TicketType.lifetime_pass ms = (ms ≡ 36_524 * day_ms) ⊎ (ms ≡ 36_525 * day_ms)

-- The term that starts at a time ends the days of the ticket's type later; that of a lifetime pass,
-- a hundred calendar years, is 36,524 or 36,525 days.
valid_until_of-IsTerm :
    (type : TicketType) (now : ℕ)
    → (ms : ℕ) × (IsTerm type ms × (valid_until_of type now ≡ now + ms))
unfolding valid_until_of
valid_until_of-IsTerm TicketType.oneway now = (30 * day_ms, (refl, refl))
valid_until_of-IsTerm TicketType.return now = (30 * day_ms, (refl, refl))
valid_until_of-IsTerm TicketType.day_pass now = (1 * day_ms, (refl, refl))
valid_until_of-IsTerm TicketType.weekly_pass now = (7 * day_ms, (refl, refl))
valid_until_of-IsTerm TicketType.monthly_pass now = (30 * day_ms, (refl, refl))
valid_until_of-IsTerm TicketType.yearly_pass now = (365 * day_ms, (refl, refl))
valid_until_of-IsTerm TicketType.lifetime_pass now = elim (add_years-century now) [
  | inl e ↦ (36_524 * day_ms, (inl refl, e))
  | inr e ↦ (36_525 * day_ms, (inr refl, e))
]

valid_until_of-le : (type : TicketType) (now : ℕ) → now ≤ valid_until_of type now
valid_until_of-le type now = let (ms, (_, e)) = valid_until_of-IsTerm type now in omega (arith, e)

-- An inactive pass that is not deactivated, activated by its passenger or without naming one, is
-- answered and counts as valid at once.
activate_ticket-valid :
    (id : String) (p : Option String) (s : System) (t : Ticket)
    → find_by_pk id s.tickets ≡ some t
    → owned_by p t ≡ true
    → is_short_term t.ticket_type ≡ false
    → t.status ≡ Status.inactive
    → t.is_active ≡ true
    → (is_ok (activate_ticket_internal id p s).0 ≡ true)
      × (validate_ticket id (activate_ticket_internal id p s).1 ≡ valid)
unfolding activate_ticket_internal activate_owned start_count_down activate_long_term_ticket
    validate_ticket validation_of is_valid
activate_ticket-valid id p s t e o l i a =
    let u : Ticket = record t {
      status = Status.active;
      valid_from = some s.now;
      valid_until = some (valid_until_of t.ticket_type s.now);
      activated_at = some s.now;
    } in
    ground (
      arith,
      find_by_pk-save id u s.tickets,
      find_by_pk-ticket_id id s.tickets t e,
      eq_iff t.ticket_id id,
      valid_until_of-le t.ticket_type s.now,
    )
