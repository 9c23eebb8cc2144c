-- ===== src/Ticket/UseLimit/AnyOrder.antt =====
-- How often a short-term ticket can be used, under every request and in every order of them.
use metro_backend.Prelude.{
  ℕ, zero, suc, ◌+◌, ◌≡◌, ◌≤◌, true, false, String, some, List, [], ◌∷◌, arith, keep, take, length,
  subst, sym, All, ℤ, Bool-cases, inl, inr,
}
use metro_backend.Ticket.{
  Ticket, TicketType, Status, System, find_by_pk, is_short_term, oneway, return,
}
use metro_backend.Ticket.Rows.{map-All, map-Distinct}
use metro_backend.Ticket.Expiry.{
  is_overdue, is_due, activated, activate_each, activate_due_tickets, expire_tickets,
}
use metro_backend.Ticket.Expiry.Sweep.{expire_overdue, expire_tickets-sweep}
use metro_backend.Ticket.Edits.Limit.{
  leaves_use, update_ticket-RowsWithinLimit, delete_ticket-RowsWithinLimit,
}
use metro_backend.Ticket.Payment.Ready.{process_payment_ready_event-same}
use metro_backend.Ticket.Requests.{Request, serve, serve_all}
use metro_backend.Ticket.UseLimit.{
  IsWithinLimit, RowsWithinLimit, found-IsWithinLimit, pass_limit, use_ticket-RowsWithinLimit,
}
use metro_backend.Ticket.UseLimit.Handlers.{
  use_ticket_by_qr_code-RowsWithinLimit, update_ticket_status-RowsWithinLimit,
  cancel_ticket-RowsWithinLimit,
}
use metro_backend.Ticket.UseLimit.Jobs.{
  insert-RowsWithinLimit, written-RowsWithinLimit, activate_ticket_internal-RowsWithinLimit,
  payment_completed-RowsWithinLimit, payment_failed-RowsWithinLimit,
  payment_cancelled-RowsWithinLimit,
}

abbrev IsPass : Ticket → Type 0
IsPass t = is_short_term t.ticket_type ≡ false

due-IsPass : (now n : ℕ) (ts : List Ticket) → All IsPass (take n (keep (is_due now) ts))
unfolding is_due
due-IsPass now zero ts = tt
due-IsPass now (suc n) [] = tt
due-IsPass now (suc n) (t ∷ ts) = elim (Bool-cases (is_due now t)) [
  | inl e ↦ rw e (ground arith, due-IsPass now n ts)
  | inr e ↦ rw e (due-IsPass now (suc n) ts)
]

activate_each-RowsWithinLimit :
    (ts : List Ticket) (count : ℕ) (s : System)
    → All IsPass ts
    → RowsWithinLimit s
    → RowsWithinLimit (activate_each ts count s).1
unfolding activate_each activated
activate_each-RowsWithinLimit [] count s h w = w
activate_each-RowsWithinLimit (t ∷ ts) count s h w = ground (
  arith,
  activate_each-RowsWithinLimit ts (count + 1) _ h.1 (
      written-RowsWithinLimit (activated s.now t) s w
        (pass_limit (activated s.now t) t.used_list Status.active h.0)),
)

activate_due-RowsWithinLimit :
    (limit : ℕ) (s : System) → RowsWithinLimit s → RowsWithinLimit (activate_due_tickets limit s).1
unfolding activate_due_tickets
activate_due-RowsWithinLimit limit s w =
    activate_each-RowsWithinLimit _ 0 s (due-IsPass s.now limit s.tickets) w

expired-IsWithinLimit :
    (now : ℕ) (t : Ticket) → IsWithinLimit t → IsWithinLimit (expire_overdue now t)
unfolding expire_overdue is_overdue
expired-IsWithinLimit now t l = ground arith

expire-RowsWithinLimit : (s : System) → RowsWithinLimit s → RowsWithinLimit (expire_tickets s).1
unfolding expire_overdue
expire-RowsWithinLimit s w =
    subst (λ r. RowsWithinLimit r.1) (sym (expire_tickets-sweep s w.keyed))
      (record {
        rows =
            map-All IsWithinLimit (expire_overdue s.now) s.tickets (expired-IsWithinLimit s.now)
              w.rows;
        keyed = map-Distinct (expire_overdue s.now) s.tickets (λ t. ground arith) w.keyed;
      })

-- An edit by staff leaves the type, the status and the list of uses.
abbrev pub LeavesUse : Request → Type 0
LeavesUse (Request.edits id e) = leaves_use e ≡ true
LeavesUse _ = Unit

abbrev pub uses_allowed : TicketType → ℕ
uses_allowed oneway = 1
uses_allowed return = 2
uses_allowed _ = 0

module _ (hmac : String → ℤ → List ℕ) where
  pub serve-RowsWithinLimit :
      (r : Request) (s : System)
      → LeavesUse r
      → RowsWithinLimit s
      → RowsWithinLimit (serve hmac s r)
  unfolding serve
  serve-RowsWithinLimit (Request.creates b) s l w = insert-RowsWithinLimit b s w
  serve-RowsWithinLimit (Request.edits id e) s l w = update_ticket-RowsWithinLimit id e s l w
  serve-RowsWithinLimit (Request.deletes id) s l w = delete_ticket-RowsWithinLimit id s w
  serve-RowsWithinLimit (Request.payment_ready id) s l w =
      subst (λ r. RowsWithinLimit r.1) (sym (process_payment_ready_event-same id s)) w
  serve-RowsWithinLimit (Request.uses id) s l w = use_ticket-RowsWithinLimit id s w
  serve-RowsWithinLimit (Request.scans qr) s l w = use_ticket_by_qr_code-RowsWithinLimit hmac qr s w
  serve-RowsWithinLimit (Request.cancels id p) s l w = cancel_ticket-RowsWithinLimit id p s w
  serve-RowsWithinLimit (Request.sets_status id st) s l w =
      update_ticket_status-RowsWithinLimit id st s w
  serve-RowsWithinLimit (Request.activates id p) s l w =
      activate_ticket_internal-RowsWithinLimit id p s w
  serve-RowsWithinLimit (Request.payment_completed id p) s l w =
      payment_completed-RowsWithinLimit id p s w
  serve-RowsWithinLimit (Request.payment_failed id) s l w = payment_failed-RowsWithinLimit id s w
  serve-RowsWithinLimit (Request.payment_cancelled id) s l w =
      payment_cancelled-RowsWithinLimit id s w
  serve-RowsWithinLimit Request.expires s l w = expire-RowsWithinLimit s w
  serve-RowsWithinLimit (Request.activates_due limit) s l w = activate_due-RowsWithinLimit limit s w
  serve-RowsWithinLimit (Request.time_passes ms) s l w = record { rows = w.rows; keyed = w.keyed }
  serve-RowsWithinLimit (Request.broker_changes up) s l w = record {
    rows = w.rows;
    keyed = w.keyed;
  }

  serve_all-RowsWithinLimit :
      (rs : List Request) (s : System)
      → All LeavesUse rs
      → RowsWithinLimit s
      → RowsWithinLimit (serve_all hmac s rs)
  unfolding serve_all
  serve_all-RowsWithinLimit [] s ls w = w
  serve_all-RowsWithinLimit (r ∷ rs) s ls w =
      serve_all-RowsWithinLimit rs (serve hmac s r) ls.1 (serve-RowsWithinLimit r s ls.0 w)

  -- From a table with no two rows of the same key, in which a oneway ticket is unused, or used once
  -- and then used or cancelled by its status, and a return ticket is used at most once, or twice and
  -- then used, cancelled or abused by its status: after any requests, events and jobs in any order,
  -- the edits by staff leaving type, status and uses, a oneway ticket has been used at most once
  -- and a return ticket at most twice.
  pub serve_all-uses-le :
      (rs : List Request) (s : System) (id : String) (t : Ticket)
      → All LeavesUse rs
      → RowsWithinLimit s
      → find_by_pk id (serve_all hmac s rs).tickets ≡ some t
      → is_short_term t.ticket_type ≡ true
      → length t.used_list ≤ uses_allowed t.ticket_type
  serve_all-uses-le rs s id t ls w found short =
      let l = found-IsWithinLimit id _ (serve_all-RowsWithinLimit rs s ls w) t found in ground arith
