-- ===== src/Ticket/Cancelled/Final.antt =====
-- The handlers against a ticket that is cancelled.
use metro_backend.Prelude.{◌≡◌, ◌⊎◌, inl, inr, false, String, Option, some, arith, continue_state}
use metro_backend.Ticket.{
  Ticket, Status, System, update, with_ticket, publish_ticket_activated, ticket_not_found,
  bad_status,
}
use metro_backend.Ticket.Rules.{
  with_ticket_state, rethrow_state, require_state, undefined_on_error_state,
}
use metro_backend.Ticket.Usage.{handle_use, track_again, use_found, use_ticket}
use metro_backend.Ticket.Transitions.{
  change_status, update_ticket_status, cancel_found, cancel_ticket, add_status_specific_fields,
  validate_status_transition,
}
use metro_backend.Ticket.Calendar.{calculate_validity_period}
use metro_backend.Ticket.Activation.{
  activate_long_term_ticket, start_count_down, activate_owned, activate_ticket_internal,
}
use metro_backend.Ticket.Cancelled.{
  IsKept, IsOther, update-IsKept, same_rows-IsKept, found-cases, handle_use-IsKept,
  track_again-IsKept,
}
use metro_backend.Ticket.UseLimit.Jobs.{publish_tickets}
use metro_backend.Ticket.Transitions.Progress.{changed_fields}

module _ (t : Ticket) (c : t.status ≡ Status.cancelled) where
  pub use_found-IsKept :
      (u : Ticket) (s : System) → IsKept t s → (u ≡ t) ⊎ IsOther t u → IsKept t (use_found u s).1
  unfolding use_found
  use_found-IsKept u s k (inl e) = ground (arith, c, e, k)
  use_found-IsKept u s k (inr o) =
      let after = handle_use-IsKept t u s k o in
      let both =
        continue_state (IsKept t) (handle_use u s) (track_again u.ticket_id) after
          λ r _. track_again-IsKept t u r _ after o in
      ground (arith, both, k)

  pub use_ticket-IsKept : (id : String) (s : System) → IsKept t s → IsKept t (use_ticket id s).1
  unfolding use_ticket
  use_ticket-IsKept id s k = rethrow_state (IsKept t) _ (
      with_ticket_state (IsKept t) id ticket_not_found use_found s k
        λ u e. use_found-IsKept u s k (found-cases t id u s k e))

  change_status-IsKept :
      (new : Status) (u : Ticket) (s : System)
      → IsKept t s
      → (u ≡ t) ⊎ IsOther t u
      → IsKept t (change_status new u s).1
  unfolding change_status
  change_status-IsKept new u s k (inl e) =
      unfold validate_status_transition in ground (arith, c, e, k)
  change_status-IsKept new u s k (inr o) = ground (
    arith,
    update-IsKept t (add_status_specific_fields new u s.now) s k,
    changed_fields new u s.now,
    k,
    o,
  )

  pub update_ticket_status-IsKept :
      (id : String) (new : Status) (s : System)
      → IsKept t s
      → IsKept t (update_ticket_status id new s).1
  unfolding update_ticket_status
  update_ticket_status-IsKept id new s k =
      require_state (IsKept t) _ bad_status (with_ticket id ticket_not_found (change_status new)) s
        k
        λ _.
          with_ticket_state (IsKept t) id ticket_not_found (change_status new) s k
            λ u e. change_status-IsKept new u s k (found-cases t id u s k e)

  cancel_found-IsKept :
      (p : Option String) (u : Ticket) (s : System)
      → IsKept t s
      → (u ≡ t) ⊎ IsOther t u
      → IsKept t (cancel_found p u s).1
  unfolding cancel_found
  cancel_found-IsKept p u s k (inl e) = ground (arith, c, e, k)
  cancel_found-IsKept p u s k (inr o) =
      ground (
        arith,
        update-IsKept t (record u { status = Status.cancelled; is_active = false }) s k,
        k,
        o,
      )

  pub cancel_ticket-IsKept :
      (id : String) (p : Option String) (s : System)
      → IsKept t s
      → IsKept t (cancel_ticket id p s).1
  unfolding cancel_ticket
  cancel_ticket-IsKept id p s k = undefined_on_error_state (IsKept t) _ (
      with_ticket_state (IsKept t) id ticket_not_found (cancel_found p) s k
        λ u e. cancel_found-IsKept p u s k (found-cases t id u s k e))

  -- A row of another key that is written and announced.
  pub written-IsKept :
      (u : Ticket) (s : System)
      → IsKept t s
      → IsOther t u
      → IsKept t (publish_ticket_activated u (update u s).1).1
  written-IsKept u s k o =
      same_rows-IsKept t (update u s).1 _ (publish_tickets u (update u s).1)
        (update-IsKept t u s k o)

  activate_long_term-IsKept :
      (u : Ticket) (s : System)
      → IsKept t s
      → (u ≡ t) ⊎ IsOther t u
      → IsKept t (activate_long_term_ticket u s).1
  unfolding activate_long_term_ticket
  activate_long_term-IsKept u s k (inl e) = ground (arith, c, e, k)
  activate_long_term-IsKept u s k (inr o) =
      let (from, until) = calculate_validity_period u.ticket_type s.now in
      let v : Ticket = record u {
        status = Status.active;
        valid_from = some from;
        valid_until = some until;
        activated_at = some s.now;
      } in
      ground (arith, written-IsKept v s k, k, o)

  start_count_down-IsKept :
      (id : String) (s : System) → IsKept t s → IsKept t (start_count_down id s).1
  unfolding start_count_down
  start_count_down-IsKept id s k =
      with_ticket_state (IsKept t) id ticket_not_found activate_long_term_ticket s k
        λ u e. activate_long_term-IsKept u s k (found-cases t id u s k e)

  pub activate_ticket_internal-IsKept :
      (id : String) (p : Option String) (s : System)
      → IsKept t s
      → IsKept t (activate_ticket_internal id p s).1
  unfolding activate_ticket_internal activate_owned
  activate_ticket_internal-IsKept id p s k =
      with_ticket_state (IsKept t) id ticket_not_found (activate_owned id p) s k
        λ u _. ground (arith, start_count_down-IsKept id s k, k)
