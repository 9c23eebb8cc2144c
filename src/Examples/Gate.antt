-- ===== src/Examples/Gate.antt =====
-- The gate on a oneway and on a return ticket.
use metro_backend.Prelude.{
  none, ◌≡◌, ◌≤◌, refl, some, List, [], ◌∷◌, is_ok, err, inl, arith, any, length, All,
}
use metro_backend.Ticket.{Ticket, TicketType, Status, find_by_pk, is_status, save, reference_error}
use metro_backend.Ticket.Abuse.{verdict_of, track_and_detect_abuse}
use metro_backend.Ticket.Usage.{
  rethrow_reference_error, record_use, use_ticket, use_found, handle_use,
  handle_use_short_term_ticket, use_short_term, short_term_use, track_again,
}
use metro_backend.Ticket.Usage.Refusals.{use_ticket-refused}
use metro_backend.Ticket.Usage.Gate.{use_ticket-oneway}
use metro_backend.Ticket.Requests.{Request, serve, serve_all}
use metro_backend.Ticket.UseLimit.{RowsWithinLimit}
use metro_backend.Ticket.Cancelled.AnyOrder.{LeavesRow, serve_all-cancelled}
use metro_backend.Ticket.UseLimit.AnyOrder.{LeavesUse, serve_all-uses-le, uses_allowed}
use metro_backend.Examples.{hash, table, single, unpaid}

-- The oneway ticket after its use, as two requests at the gate leave it.
abbrev single_used : Ticket
single_used = record single { status = Status.used; used_list = 1_000_000 ∷ [] }

abbrev two_uses : List Request
two_uses = Request.uses "T1" ∷ Request.uses "T1" ∷ []

single-RowsWithinLimit : RowsWithinLimit (table single)
unfolding find_by_pk
single-RowsWithinLimit = record { rows = (inl refl, tt); keyed = (refl, tt) }

two_uses_row : find_by_pk "T1" (serve_all hash (table single) two_uses).tickets ≡ some single_used
unfolding serve_all serve use_ticket use_found handle_use handle_use_short_term_ticket
    use_short_term short_term_use record_use track_and_detect_abuse verdict_of
    rethrow_reference_error track_again find_by_pk save
two_uses_row = refl

two_uses-LeavesUse : All LeavesUse two_uses
two_uses-LeavesUse = ground arith

serve_all-uses-le_example : length single_used.used_list ≤ uses_allowed TicketType.oneway
serve_all-uses-le_example =
    serve_all-uses-le hash two_uses (table single) "T1" single_used two_uses-LeavesUse
      single-RowsWithinLimit two_uses_row refl

-- The second of two uses is refused, with the engine's own error in place of the gate's.
second_use_refused :
    (use_ticket "T1" (serve hash (table single) (Request.uses "T1"))).0
    ≡ err (reference_error "ticket")
unfolding serve use_ticket use_found handle_use handle_use_short_term_ticket use_short_term
    short_term_use record_use track_and_detect_abuse verdict_of rethrow_reference_error track_again
    find_by_pk save
second_use_refused = refl

use_ticket-oneway_example :
    is_ok (use_ticket "T1" (table unpaid)).0
    ≡ any
        (is_status Status.pending_payment)
        (Status.active ∷ Status.inactive ∷ Status.pending_payment ∷ [])
unfolding find_by_pk
use_ticket-oneway_example = use_ticket-oneway "T1" (table unpaid) unpaid refl refl refl

-- No ticket has the id.
use_ticket-refused_example :
    use_ticket "T9" (table single) ≡ (err (reference_error "ticket"), table single)
unfolding use_ticket rethrow_reference_error find_by_pk
use_ticket-refused_example = use_ticket-refused "T9" (table single) refl

abbrev withdrawn : Ticket
withdrawn = record single { status = Status.cancelled }

withdrawn-RowsWithinLimit : RowsWithinLimit (table withdrawn)
unfolding find_by_pk
withdrawn-RowsWithinLimit = record { rows = (inl refl, tt); keyed = (refl, tt) }

-- Requests that would use, pay for, activate and expire the ticket.
abbrev attempts : List Request
attempts =
    Request.uses "T1"
    ∷ Request.payment_completed "T1" "PAY"
    ∷ Request.sets_status "T1" Status.active
    ∷ Request.activates "T1" none
    ∷ Request.deletes "T2"
    ∷ Request.expires
    ∷ []

attempts-LeavesUse : All LeavesUse attempts
attempts-LeavesUse = ground arith

attempts-LeavesRow : All (LeavesRow "T1") attempts
attempts-LeavesRow = ground arith

serve_all-cancelled_example :
    find_by_pk "T1" (serve_all hash (table withdrawn) attempts).tickets ≡ some withdrawn
unfolding find_by_pk
serve_all-cancelled_example =
    serve_all-cancelled hash attempts (table withdrawn) "T1" withdrawn attempts-LeavesUse
      attempts-LeavesRow withdrawn-RowsWithinLimit refl refl
