-- ===== src/Ticket.antt =====
-- ticket-service/src/models/ticket.model.js: the ticket row, the table and what the handlers of
-- ticket-service share. Times are milliseconds since the epoch, and `now` stands still during one
-- request. A statement sent to the database succeeds; a publish fails while the broker is down.
-- The columns that no handler here reads (trip, pass, prices, breakdown) are left out.
mod Rows
mod Rules
pub mod UseLimit
pub mod Cancelled
pub mod Calendar
pub mod Activation
pub mod Rotation
pub mod Abuse
pub mod Usage
pub mod Transitions
pub mod Payment
pub mod Events
pub mod Edits
pub mod Requests
pub mod Validator
pub mod Expiry
use metro_backend.Prelude.{
  ok, err, subst, sym, Text, ℕ, Bool, true, false, String, Option, none, some, List, [], ◌∷◌, ◌++◌,
  ◌≡◌, arith, if◌then◌else◌, str_eq, eq_iff, Action,
}

pub data TicketType : Type 0 where
  oneway return day_pass weekly_pass monthly_pass yearly_pass lifetime_pass : TicketType

pub data Status : Type 0 where
  active inactive pending_payment used expired cancelled abused : Status

pub record Ticket : Type 0 where
  pub ticket_id : String
  pub passenger_id : Option String
  pub fare_id : Option String
  pub origin_station_id : Option String
  pub ticket_type : TicketType
  pub status : Status
  pub is_active : Bool
  pub purchase_date : Option ℕ
  pub valid_from : Option ℕ
  pub valid_until : Option ℕ
  pub activated_at : Option ℕ
  pub used_list : List ℕ
  pub qr_code : Option Text
  pub qr_secret : String

-- Equality of statuses, as `===` on their names.
abbrev pub is_status : Status → Status → Bool
is_status active active = true
is_status inactive inactive = true
is_status pending_payment pending_payment = true
is_status used used = true
is_status expired expired = true
is_status cancelled cancelled = true
is_status abused abused = true
is_status _ _ = false

-- `['oneway', 'return'].includes(ticketType)`.
abbrev pub is_short_term : TicketType → Bool
is_short_term oneway = true
is_short_term return = true
is_short_term day_pass = false
is_short_term weekly_pass = false
is_short_term monthly_pass = false
is_short_term yearly_pass = false
is_short_term lifetime_pass = false

-- The messages of the errors that the handlers throw.
pub data Failure : Type 0 where
  ticket_not_found not_owner : Failure
  not_long_term already_active not_paid : Failure
  not_activated long_term_expired used_twice unsupported_type : Failure
  already_used already_cancelled already_expired locked : Failure
  code_required bad_base bad_code qr_not_found : Failure
  bad_status publish_failed null_access : Failure
  bad_transition : Status → Status → Failure
  reference_error : String → Failure

-- An event on the topic `ticket.activated`, by its ticket.
pub data Event : Type 0 where
  ticket_activated : String → Event

pub record System : Type 0 where
  pub now : ℕ
  pub broker_up : Bool
  pub tickets : List Ticket
  pub events : List Event

abbrev pub Handler : Type 0 → Type 0
Handler = Action System Failure

-- `Ticket.findByPk`.
unfoldable pub find_by_pk : String → List Ticket → Option Ticket
find_by_pk id [] = none
find_by_pk id (t ∷ ts) = if str_eq t.ticket_id id then some t else find_by_pk id ts

-- `ticket.update`: the row of the instance takes its fields.
unfoldable pub save : Ticket → List Ticket → List Ticket
save t [] = []
save t (u ∷ us) = if str_eq u.ticket_id t.ticket_id then t ∷ us else u ∷ save t us

abbrev pub replaced : Option Ticket → Ticket → Option Ticket
replaced none t = none
replaced (some _) t = some t

-- A read after a write sees the written row, and every other row as it was.
pub find_by_pk-save :
    (id : String) (t : Ticket) (ts : List Ticket)
    → find_by_pk id (save t ts)
      ≡ (if str_eq t.ticket_id id then replaced (find_by_pk id ts) t else find_by_pk id ts)
unfolding find_by_pk save
find_by_pk-save id t [] = ground arith
find_by_pk-save id t (u ∷ us) = ground (
  arith,
  find_by_pk-save id t us,
  eq_iff u.ticket_id t.ticket_id,
  eq_iff u.ticket_id id,
  eq_iff t.ticket_id id,
)

-- The row that a search finds has the key.
pub find_by_pk-ticket_id :
    (id : String) (ts : List Ticket) (t : Ticket) → find_by_pk id ts ≡ some t → t.ticket_id ≡ id
unfolding find_by_pk
find_by_pk-ticket_id id [] t h = ground arith
find_by_pk-ticket_id id (u ∷ us) t h =
    ground (arith, eq_iff u.ticket_id id, find_by_pk-ticket_id id us t)

pub find_by_pk_self :
    (id : String) (ts : List Ticket) (t : Ticket)
    → find_by_pk id ts ≡ some t
    → find_by_pk t.ticket_id ts ≡ some t
find_by_pk_self id ts t e =
    subst (λ k. find_by_pk k ts ≡ some t) (sym (find_by_pk-ticket_id id ts t e)) e

-- `const ticket = await Ticket.findByPk(id); if (!ticket) throw …; …`.
abbrev pub on_found : {A : Type 0} → Option Ticket → Failure → (Ticket → Handler A) → Handler A
on_found none missing f s = (err missing, s)
on_found (some ticket) missing f s = f ticket s

abbrev pub with_ticket : {A : Type 0} → String → Failure → (Ticket → Handler A) → Handler A
with_ticket id missing f s = on_found (find_by_pk id s.tickets) missing f s

-- The row of the instance is written; the instance is returned.
abbrev pub update : Ticket → Handler Ticket
update t s = (ok t, record s { tickets = save t s.tickets })

-- `publishTicketActivated` of ticket-service/src/events/ticket.producer.js.
abbrev pub publish_ticket_activated : Ticket → Handler (Unit {0})
publish_ticket_activated t s =
    if s.broker_up
    then (ok tt, record s { events = s.events ++ ticket_activated t.ticket_id ∷ [] })
    else (err publish_failed, s)

-- `try { … } catch (e) { log }`.
abbrev pub swallow : Handler (Unit {0}) → Handler (Unit {0})
swallow m s = (ok tt, (m s).1)
