-- ===== src/Ticket/UseLimit/Handlers.antt =====
-- How often a short-term ticket can be used, under every request and in every order of them.
use metro_backend.Prelude.{
  ℕ, ◌≡◌, true, false, String, Option, some, List, [], ◌∷◌, Text, ℤ, eq_iff, arith, length-append,
}
use metro_backend.Ticket.{
  Ticket, System, Status, find_by_pk, is_status, ticket_not_found, with_ticket, bad_status,
}
use metro_backend.Ticket.Rows.{Distinct}
use metro_backend.Ticket.Rules.{
  with_ticket_state, on_found_state, require_state, with_ticket-found, undefined_on_error_state,
}
use metro_backend.Ticket.Usage.{
  find_by_qr, use_abused, handle_use_abused_ticket, use_scanned, use_ticket_by_qr_code,
  before_colon,
}
use metro_backend.Ticket.UseLimit.{
  IsWithinLimit, RowsWithinLimit, update-RowsWithinLimit, handle_use-RowsWithinLimit,
  found-IsWithinLimit,
}
use metro_backend.Ticket.Transitions.{
  update_ticket_status, change_status, add_status_specific_fields, validate_status_transition,
  cancel_ticket, cancel_found,
}

-- A scan finds the row that its key leads to.
pub find_by_qr-find_by_pk :
    (base : Text) (ts : List Ticket) (t : Ticket)
    → Distinct ts
    → find_by_qr base ts ≡ some t
    → find_by_pk t.ticket_id ts ≡ some t
unfolding find_by_qr find_by_pk
find_by_qr-find_by_pk base [] t d e = cc
find_by_qr-find_by_pk base (u ∷ us) t d e =
    ground (arith, eq_iff u.ticket_id t.ticket_id, find_by_qr-find_by_pk base us t d.1)

module _ (hmac : String → ℤ → List ℕ) where
  pub use_abused-RowsWithinLimit :
      (scanned : Text) (s : System) (t : Ticket)
      → RowsWithinLimit s
      → find_by_pk t.ticket_id s.tickets ≡ some t
      → is_status t.status Status.used ≡ false
      → is_status t.status Status.cancelled ≡ false
      → RowsWithinLimit (use_abused hmac scanned t s).1
  unfolding use_abused
  use_abused-RowsWithinLimit scanned s t w e h k =
      ground (arith, handle_use-RowsWithinLimit s w t e h k)

  pub use_scanned-RowsWithinLimit :
      (scanned : Text) (s : System) (t : Ticket)
      → find_by_pk t.ticket_id s.tickets ≡ some t
      → RowsWithinLimit s
      → RowsWithinLimit (use_scanned hmac scanned t s).1
  unfolding use_scanned handle_use_abused_ticket
  use_scanned-RowsWithinLimit scanned s t e w = ground (
    arith,
    with_ticket-found t.ticket_id s ticket_not_found (use_abused hmac scanned) e,
    use_abused-RowsWithinLimit scanned s t w e,
    handle_use-RowsWithinLimit s w t e,
  )

  pub use_ticket_by_qr_code-RowsWithinLimit :
      (scanned : Text) (s : System)
      → RowsWithinLimit s
      → RowsWithinLimit (use_ticket_by_qr_code hmac scanned s).1
  unfolding use_ticket_by_qr_code
  use_ticket_by_qr_code-RowsWithinLimit scanned s w =
      on_found_state RowsWithinLimit _ _ (use_scanned hmac scanned) s w λ t found.
        use_scanned-RowsWithinLimit scanned s t
          (find_by_qr-find_by_pk (before_colon scanned) s.tickets t w.keyed found) w

changed-IsWithinLimit :
    (new : Status) (t : Ticket) (now : ℕ)
    → validate_status_transition t.status new ≡ true
    → IsWithinLimit t
    → IsWithinLimit (add_status_specific_fields new t now)
unfolding validate_status_transition add_status_specific_fields
changed-IsWithinLimit new t now ok_to w = ground (arith, length-append t.used_list (now ∷ []))

change_status-RowsWithinLimit :
    (new : Status) (t : Ticket) (s : System)
    → IsWithinLimit t
    → RowsWithinLimit s
    → RowsWithinLimit (change_status new t s).1
unfolding change_status
change_status-RowsWithinLimit new t s l w = ground (
  arith,
  update-RowsWithinLimit (add_status_specific_fields new t s.now) s,
  changed-IsWithinLimit new t s.now,
)

pub update_ticket_status-RowsWithinLimit :
    (id : String) (new : Status) (s : System)
    → RowsWithinLimit s
    → RowsWithinLimit (update_ticket_status id new s).1
unfolding update_ticket_status
update_ticket_status-RowsWithinLimit id new s w =
    require_state RowsWithinLimit _ bad_status (with_ticket id ticket_not_found (change_status new))
      s w
      λ _.
        with_ticket_state RowsWithinLimit id ticket_not_found (change_status new) s w
          λ t found. change_status-RowsWithinLimit new t s (found-IsWithinLimit id s w t found) w

cancelled-IsWithinLimit :
    (t : Ticket)
    → is_status t.status Status.used ≡ false
    → IsWithinLimit t
    → IsWithinLimit (record t { status = Status.cancelled; is_active = false })
cancelled-IsWithinLimit t h w = ground arith

cancel_found-RowsWithinLimit :
    (passenger : Option String) (t : Ticket) (s : System)
    → IsWithinLimit t
    → RowsWithinLimit s
    → RowsWithinLimit (cancel_found passenger t s).1
unfolding cancel_found
cancel_found-RowsWithinLimit passenger t s l w = ground (
  arith,
  cancelled-IsWithinLimit t,
  update-RowsWithinLimit (record t { status = Status.cancelled; is_active = false }) s,
)

pub cancel_ticket-RowsWithinLimit :
    (id : String) (passenger : Option String) (s : System)
    → RowsWithinLimit s
    → RowsWithinLimit (cancel_ticket id passenger s).1
unfolding cancel_ticket
cancel_ticket-RowsWithinLimit id passenger s w = undefined_on_error_state RowsWithinLimit _ (
    with_ticket_state RowsWithinLimit id ticket_not_found (cancel_found passenger) s w
      λ t found. cancel_found-RowsWithinLimit passenger t s (found-IsWithinLimit id s w t found) w)
