-- ===== src/Ticket/Usage/SecondUse.antt =====
-- The second use of a return ticket: the abuse tracking of TicketAbused.js behind the gate.
use metro_backend.Prelude.{ℕ}
use metro_backend.Ticket.{Ticket, Status}
use metro_backend.Ticket.Usage.{use_now}

abbrev second : Ticket → ℕ → Status → Ticket
second t now st = record (use_now t now) { status = st }
