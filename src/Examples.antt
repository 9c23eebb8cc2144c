-- ===== src/Examples.antt =====
-- Runs of the handlers on small tables, and the theorems applied to them.
mod Gate
mod Terms
mod Sharing
mod Lines
mod Ways
mod Accounts
mod Limits
mod Requests
mod Transfers
use metro_backend.Prelude.{ℕ, String, Option, none, some, List, [], ◌∷◌, Bool, true, Text, ℤ}
use metro_backend.Ticket.{Ticket, TicketType, Status, System}

-- A digest that does not depend on the secret.
abbrev hash : String → ℤ → List ℕ
hash secret window = 1 ∷ 2 ∷ 3 ∷ 4 ∷ 0 ∷ []

abbrev booked : String → TicketType → Status → Ticket
booked id type status = record {
  ticket_id = id;
  passenger_id = some "P1";
  fare_id = some "F1";
  origin_station_id = some "S1";
  ticket_type = type;
  status = status;
  is_active = true;
  purchase_date = none;
  valid_from = none;
  valid_until = none;
  activated_at = none;
  used_list = [];
  qr_code = some (b'Q' ∷ []);
  qr_secret = "k";
}

abbrev table : Ticket → System
table t = record { now = 1_000_000; broker_up = true; tickets = t ∷ []; events = [] }

abbrev single : Ticket
single = booked "T1" TicketType.oneway Status.active

abbrev unpaid : Ticket
unpaid = booked "T1" TicketType.oneway Status.pending_payment

abbrev once_used : Ticket
once_used = record (booked "T1" TicketType.return Status.active) { used_list = 995_000 ∷ [] }

abbrev paid_pass : Ticket
paid_pass = booked "T1" TicketType.weekly_pass Status.inactive
