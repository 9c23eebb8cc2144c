-- ===== src/Ticket/Expiry.antt =====
-- `expireTickets` of TicketService.js, in batches, and the two jobs of ticket-service/src/cron. A
-- search returns the rows in the order of the table.
pub mod Sweep
use metro_backend.Prelude.{
  ℕ, zero, suc, ◌+◌, ◌*◌, ◌≡◌, refl, Bool, true, false, not, ◌&&◌, String, str_eq, Option, none,
  some, List, [], ◌∷◌, map, ltb, leb, ◌==◌, if◌then◌else◌, ◌>>=◌, ◌>>◌, pure, get_state, any, keep,
  length, take, arith, ok, err, Result,
}
use metro_backend.Ticket.{
  Ticket, System, Handler, Failure, Status, active, inactive, expired, is_status, is_short_term,
  update, publish_ticket_activated, swallow,
}
use metro_backend.Ticket.Calendar.{day_ms, calculate_validity_period}

-- A comparison in SQL with `NULL` holds of no row.
abbrev pub before : Option ℕ → ℕ → Bool
before none now = false
before (some t) now = ltb t now

abbrev pub no_later : Option ℕ → ℕ → Bool
no_later none now = false
no_later (some t) now = leb t now

unfoldable pub is_overdue : ℕ → Ticket → Bool
is_overdue now t = is_status t.status active && (before t.valid_until now && t.is_active)

abbrev pub is_among : List String → Ticket → Bool
is_among ids t = any (str_eq t.ticket_id) ids

unfoldable pub expire_batch : List String → List Ticket → List Ticket
expire_batch ids = map (λ t. if is_among ids t then record t { status = expired } else t)

abbrev pub batch_size : ℕ
batch_size = 1000

abbrev pub ids_of : List Ticket → List String
ids_of = map (λ t. t.ticket_id)

-- `none` means that the fuel ran out.
module _ (batch now : ℕ) where
  unfoldable pub expire_loop : ℕ → List Ticket → ℕ → Option (ℕ × List Ticket)
  expire_loop zero ts total = none
  expire_loop (suc fuel) ts total =
      let found = ids_of (take batch (keep (is_overdue now) ts)) in
      let n = length found in
      let next = expire_loop fuel (expire_batch found ts) (total + n) in
      if n == 0
      then some (total, ts)
      else if n == batch
      then next
      else some (total + n, expire_batch found ts)

unfoldable pub is_due : ℕ → Ticket → Bool
is_due now t =
    is_status t.status inactive
    && (no_later t.activated_at now && not (is_short_term t.ticket_type))

unfoldable pub activated : ℕ → Ticket → Ticket
activated now t =
    let (valid_from, valid_until) = calculate_validity_period t.ticket_type now in
    record t { status = active; valid_from = some valid_from; valid_until = some valid_until }

unfoldable pub activate_each : List Ticket → ℕ → Handler ℕ
activate_each [] count s = (ok count, s)
activate_each (t ∷ ts) count s =
    (do
      ticket ← update (activated s.now t)
      swallow (publish_ticket_activated ticket)
      activate_each ts (count + 1))
      s

-- `activateDueTickets`: the passes whose thirty days are over start on their own.
unfoldable pub activate_due_tickets : ℕ → Handler ℕ
activate_due_tickets limit s = activate_each (take limit (keep (is_due s.now) s.tickets)) 0 s

abbrev pub expired_or_same : Option (ℕ × List Ticket) → System → Result Failure ℕ × System
expired_or_same none s = (ok 0, s)
expired_or_same (some (total, ts)) s = (ok total, record s { tickets = ts })

-- One round more than there are rows: each round but the last expires a row.
unfoldable pub expire_tickets : Handler ℕ
expire_tickets s =
    expired_or_same (expire_loop batch_size s.now (suc (length s.tickets)) s.tickets 0) s
