-- ===== src/Ticket/Cancelled/AnyOrder.antt =====
-- A cancelled ticket under every request and in every order of them.
use metro_backend.Prelude.{
  ◌≡◌, ℕ, ℤ, Text, inl, inr, subst, sym, false, str_eq, All, String, some, List, [], ◌∷◌, arith,
}
use metro_backend.Ticket.{
  Ticket, Status, System, find_by_pk, find_by_pk-ticket_id, find_by_pk_self, ticket_not_found,
  qr_not_found,
}
use metro_backend.Ticket.Rows.{Distinct}
use metro_backend.Ticket.Rules.{on_found_state, with_ticket-found}
use metro_backend.Ticket.Usage.{
  use_abused, handle_use_abused_ticket, use_scanned, use_ticket_by_qr_code, before_colon,
}
use metro_backend.Ticket.Expiry.{activate_due_tickets}
use metro_backend.Ticket.Edits.Limit.{update_ticket-IsKept, delete_ticket-IsKept}
use metro_backend.Ticket.Payment.Ready.{process_payment_ready_event-same}
use metro_backend.Ticket.Requests.{Request, create, serve, serve_all}
use metro_backend.Ticket.UseLimit.{RowsWithinLimit}
use metro_backend.Ticket.UseLimit.AnyOrder.{LeavesUse, serve-RowsWithinLimit}
use metro_backend.Ticket.UseLimit.Handlers.{find_by_qr-find_by_pk}
use metro_backend.Ticket.Cancelled.{IsKept, found-cases, handle_use-IsKept}
use metro_backend.Ticket.Cancelled.Final.{
  use_ticket-IsKept, update_ticket_status-IsKept, cancel_ticket-IsKept,
  activate_ticket_internal-IsKept,
}
use metro_backend.Ticket.Cancelled.Jobs.{
  kept_due-IsOther, activate_each-IsKept, expire-IsKept, insert-IsKept, payment_completed-IsKept,
  payment_failed-IsKept, payment_cancelled-IsKept,
}

-- No edit and no deletion by staff is of the row with the key.
abbrev pub LeavesRow : String → Request → Type 0
LeavesRow key (Request.edits id e) = str_eq id key ≡ false
LeavesRow key (Request.deletes id) = str_eq id key ≡ false
LeavesRow key _ = Unit

module _ (t : Ticket) (c : t.status ≡ Status.cancelled) where
  module _ (hmac : String → ℤ → List ℕ) where
    use_scanned-IsKept :
        (scanned : Text) (u : Ticket) (s : System)
        → IsKept t s
        → find_by_pk u.ticket_id s.tickets ≡ some u
        → IsKept t (use_scanned hmac scanned u s).1
    unfolding use_scanned handle_use_abused_ticket use_abused
    use_scanned-IsKept scanned u s k e = elim (found-cases t u.ticket_id u s k e) [
      | inl same ↦ ground (arith, c, same, k)
      | inr o ↦ ground (
        arith,
        with_ticket-found u.ticket_id s ticket_not_found (use_abused hmac scanned) e,
        handle_use-IsKept t u s k o,
        k,
      )
    ]

    use_ticket_by_qr_code-IsKept :
        (scanned : Text) (s : System)
        → Distinct s.tickets
        → IsKept t s
        → IsKept t (use_ticket_by_qr_code hmac scanned s).1
    unfolding use_ticket_by_qr_code
    use_ticket_by_qr_code-IsKept scanned s d k =
        on_found_state (IsKept t) _ qr_not_found (use_scanned hmac scanned) s k λ u e.
          use_scanned-IsKept scanned u s k
            (find_by_qr-find_by_pk (before_colon scanned) s.tickets u d e)

    serve-IsKept :
        (r : Request) (s : System)
        → Distinct s.tickets
        → LeavesRow t.ticket_id r
        → IsKept t s
        → IsKept t (serve hmac s r)
    unfolding serve
    serve-IsKept (Request.creates b) s d l k = insert-IsKept t c (create b) _ s k
    serve-IsKept (Request.edits id e) s d l k = update_ticket-IsKept t id l e s k
    serve-IsKept (Request.deletes id) s d l k = delete_ticket-IsKept t id l s k
    serve-IsKept (Request.payment_ready id) s d l k =
        subst (λ r. IsKept t r.1) (sym (process_payment_ready_event-same id s)) k
    serve-IsKept (Request.uses id) s d l k = use_ticket-IsKept t c id s k
    serve-IsKept (Request.scans qr) s d l k = use_ticket_by_qr_code-IsKept qr s d k
    serve-IsKept (Request.cancels id p) s d l k = cancel_ticket-IsKept t c id p s k
    serve-IsKept (Request.sets_status id st) s d l k = update_ticket_status-IsKept t c id st s k
    serve-IsKept (Request.activates id p) s d l k = activate_ticket_internal-IsKept t c id p s k
    serve-IsKept (Request.payment_completed id p) s d l k = payment_completed-IsKept t c id p s k
    serve-IsKept (Request.payment_failed id) s d l k = payment_failed-IsKept t c id s k
    serve-IsKept (Request.payment_cancelled id) s d l k = payment_cancelled-IsKept t c id s k
    serve-IsKept Request.expires s d l k = expire-IsKept t c s d k
    serve-IsKept (Request.activates_due limit) s d l k =
        unfold activate_due_tickets in
        activate_each-IsKept t c _ 0 s (kept_due-IsOther t c s.now limit s.tickets d k.kept) k
    serve-IsKept (Request.time_passes ms) s d l k = record { kept = k.kept }
    serve-IsKept (Request.broker_changes up) s d l k = record { kept = k.kept }

    serve_all-IsKept :
        (rs : List Request) (s : System)
        → All LeavesUse rs
        → All (LeavesRow t.ticket_id) rs
        → RowsWithinLimit s
        → IsKept t s
        → IsKept t (serve_all hmac s rs)
    unfolding serve_all
    serve_all-IsKept [] s us ls w k = k
    serve_all-IsKept (r ∷ rs) s us ls w k =
        serve_all-IsKept rs (serve hmac s r) us.1 ls.1 (serve-RowsWithinLimit hmac r s us.0 w)
          (serve-IsKept r s w.keyed ls.0 k)

-- A cancelled ticket stays as it is, in every column, after any requests, events and jobs in any
-- order among which no edit and no deletion by staff is of this ticket, the edits of other tickets
-- leaving their types, statuses and uses, from a table with no two rows of the same key and every
-- ticket within its limit of uses.
pub serve_all-cancelled :
    (hmac : String → ℤ → List ℕ) (rs : List Request) (s : System) (id : String) (t : Ticket)
    → All LeavesUse rs
    → All (LeavesRow id) rs
    → RowsWithinLimit s
    → find_by_pk id s.tickets ≡ some t
    → t.status ≡ Status.cancelled
    → find_by_pk id (serve_all hmac s rs).tickets ≡ some t
serve_all-cancelled hmac rs s id t us ls w e c =
    let same = find_by_pk-ticket_id id s.tickets t e in
    let k : IsKept t s = record { kept = find_by_pk_self id s.tickets t e } in
    let leaves : All (LeavesRow t.ticket_id) rs = subst (λ i. All (LeavesRow i) rs) (sym same) ls in
    subst (λ i. find_by_pk i (serve_all hmac s rs).tickets ≡ some t) same
      (serve_all-IsKept t c hmac rs s us leaves w k).kept
