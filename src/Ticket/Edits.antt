-- ===== src/Ticket/Edits.antt =====
-- `updateTicket` and `deleteTicket` of staff: ticket-service/src/controllers/ticket.controller.js and
-- services/ticket/repositories/TicketRepository.js. The body of a request may write any column; the
-- key of a row that is stored does not change.
pub mod Limit
use metro_backend.Prelude.{
  ℕ, Bool, true, false, not, ◌&&◌, String, str_eq, Option, none, some, List, [], ◌∷◌, keep, ok,
  Text,
}
use metro_backend.Ticket.{
  Ticket, TicketType, Status, System, Handler, find_by_pk, update, with_ticket, ticket_not_found,
}

-- The columns of a body, each of which may be missing.
pub record Edit : Type 0 where
  pub passenger_id : Option (Option String)
  pub fare_id : Option (Option String)
  pub origin_station_id : Option (Option String)
  pub ticket_type : Option TicketType
  pub status : Option Status
  pub is_active : Option Bool
  pub purchase_date : Option (Option ℕ)
  pub valid_from : Option (Option ℕ)
  pub valid_until : Option (Option ℕ)
  pub activated_at : Option (Option ℕ)
  pub used_list : Option (List ℕ)
  pub qr_code : Option (Option Text)
  pub qr_secret : Option String

abbrev pub or_kept : {A : Type 0} → Option A → A → A
or_kept none old = old
or_kept (some new) old = new

abbrev pub edited : Edit → Ticket → Ticket
edited e t = record {
  ticket_id = t.ticket_id;
  passenger_id = or_kept e.passenger_id t.passenger_id;
  fare_id = or_kept e.fare_id t.fare_id;
  origin_station_id = or_kept e.origin_station_id t.origin_station_id;
  ticket_type = or_kept e.ticket_type t.ticket_type;
  status = or_kept e.status t.status;
  is_active = or_kept e.is_active t.is_active;
  purchase_date = or_kept e.purchase_date t.purchase_date;
  valid_from = or_kept e.valid_from t.valid_from;
  valid_until = or_kept e.valid_until t.valid_until;
  activated_at = or_kept e.activated_at t.activated_at;
  used_list = or_kept e.used_list t.used_list;
  qr_code = or_kept e.qr_code t.qr_code;
  qr_secret = or_kept e.qr_secret t.qr_secret;
}

unfoldable pub update_ticket : String → Edit → Handler Ticket
update_ticket id e = with_ticket id ticket_not_found (λ t. update (edited e t))

-- `destroy` of the row with the key.
abbrev pub destroy : Option Ticket → String → Handler Bool
destroy none id s = (ok false, s)
destroy (some t) id s =
    (ok true, record s { tickets = keep (λ u. not (str_eq u.ticket_id id)) s.tickets })

unfoldable pub delete_ticket : String → Handler Bool
delete_ticket id s = destroy (find_by_pk id s.tickets) id s
