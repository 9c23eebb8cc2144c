-- ===== src/Ticket/Requests.antt =====
-- The requests, events and jobs that reach the tickets, in any order: all that write a row of the
-- table. The writes that a creation makes to its own new row are one step with it.
use metro_backend.Prelude.{ℕ, ◌+◌, Bool, String, Option, none, some, List, [], ◌∷◌, ◌++◌, Text, ℤ}
use metro_backend.Ticket.{Ticket, TicketType, Status, System, find_by_pk}
use metro_backend.Ticket.Activation.{activate_ticket_internal}
use metro_backend.Ticket.Usage.{use_ticket, use_ticket_by_qr_code}
use metro_backend.Ticket.Transitions.{update_ticket_status, cancel_ticket}
use metro_backend.Ticket.Events.{
  process_payment_ready_event, process_payment_completed_event, process_payment_failed_event,
  process_payment_cancelled_event,
}
use metro_backend.Ticket.Edits.{Edit, update_ticket, delete_ticket}
use metro_backend.Ticket.Expiry.{activate_due_tickets, expire_tickets}

-- The columns of a ticket that its creation chooses.
pub record Booking : Type 0 where
  pub ticket_id : String
  pub passenger_id : Option String
  pub fare_id : Option String
  pub origin_station_id : Option String
  pub ticket_type : TicketType
  pub status : Status
  pub valid_from : Option ℕ
  pub valid_until : Option ℕ
  pub qr_code : Option Text
  pub qr_secret : String

-- `repository.create`: the other columns have their defaults.
unfoldable pub create : Booking → Ticket
create b = record {
  ticket_id = b.ticket_id;
  passenger_id = b.passenger_id;
  fare_id = b.fare_id;
  origin_station_id = b.origin_station_id;
  ticket_type = b.ticket_type;
  status = b.status;
  is_active = Bool.true;
  purchase_date = none;
  valid_from = b.valid_from;
  valid_until = b.valid_until;
  activated_at = none;
  used_list = [];
  qr_code = b.qr_code;
  qr_secret = b.qr_secret;
}

pub data Request : Type 0 where
  creates : Booking → Request
  edits : String → Edit → Request
  deletes : String → Request
  uses : String → Request
  scans : Text → Request
  cancels : String → Option String → Request
  sets_status : String → Status → Request
  activates : String → Option String → Request
  payment_completed : String → String → Request
  payment_ready payment_failed payment_cancelled : String → Request
  expires : Request
  activates_due : ℕ → Request
  time_passes : ℕ → Request
  broker_changes : Bool → Request

-- The primary key of the table refuses a second row with the same id.
abbrev pub insert : Ticket → Option Ticket → System → System
insert ticket none s = record s { tickets = s.tickets ++ ticket ∷ [] }
insert ticket (some _) s = s

module _ (hmac : String → ℤ → List ℕ) where
  -- The state that a request leaves, whether it is answered or refused.
  unfoldable pub serve : System → Request → System
  serve s (creates b) = insert (create b) (find_by_pk b.ticket_id s.tickets) s
  serve s (edits id e) = (update_ticket id e s).1
  serve s (deletes id) = (delete_ticket id s).1
  serve s (uses id) = (use_ticket id s).1
  serve s (scans qr) = (use_ticket_by_qr_code hmac qr s).1
  serve s (cancels id passenger) = (cancel_ticket id passenger s).1
  serve s (sets_status id status) = (update_ticket_status id status s).1
  serve s (activates id passenger) = (activate_ticket_internal id passenger s).1
  serve s (payment_ready id) = (process_payment_ready_event id s).1
  serve s (payment_completed id payment) = (process_payment_completed_event id payment s).1
  serve s (payment_failed id) = (process_payment_failed_event id s).1
  serve s (payment_cancelled id) = (process_payment_cancelled_event id s).1
  serve s expires = (expire_tickets s).1
  serve s (activates_due limit) = (activate_due_tickets limit s).1
  serve s (time_passes ms) = record s { now = s.now + ms }
  serve s (broker_changes up) = record s { broker_up = up }

  unfoldable pub serve_all : System → List Request → System
  serve_all s [] = s
  serve_all s (r ∷ rs) = serve_all (serve s r) rs
