-- ===== src/Ticket/Usage.antt =====
-- The gate of ticket-service/src/services/ticket/services/TicketService.js: the handlers that use a
-- ticket. What a `catch` that reads the `ticket` declared inside its `try` throws is the engine's
-- ReferenceError, which replaces the error that it was to log.
pub mod Gate
pub mod SecondUse
pub mod Refusals
use metro_backend.Prelude.{
  ℕ, ◌+◌, ◌≡◌, refl, Bool, true, false, not, ◌&&◌, ◌||◌, String, Option, none, some, List, [], ◌∷◌,
  ◌++◌, Text, text_eq, all_digits, ℤ, ltb, ◌==◌, if◌then◌else◌, ◌>>=◌, ◌>>◌, pure, throw, require,
  get_state, length, arith, ok, err, Result, continue,
}
use metro_backend.Ticket.{
  find_by_pk, Ticket, TicketType, oneway, return, System, Handler, Status, Failure, used, abused,
  cancelled, expired, is_short_term, is_status, ticket_not_found, null_access, not_activated,
  long_term_expired, used_twice, unsupported_type, already_used, already_cancelled, already_expired,
  locked, code_required, bad_base, bad_code, qr_not_found, reference_error, with_ticket, on_found,
  update,
}
use metro_backend.Ticket.Abuse.{Verdict, track_and_detect_abuse}
use metro_backend.Ticket.Rotation.{verify_code}

-- `catch (error) { logger.error(…, ticket?.status); throw error; }` with no `ticket` in scope.
unfoldable pub rethrow_reference_error :
    {A : Type 0} → Result Failure A × System → Result Failure A × System
rethrow_reference_error (ok a, s) = (ok a, s)
rethrow_reference_error (err e, s) = (err (reference_error "ticket"), s)

abbrev pub use_now : Ticket → ℕ → Ticket
use_now ticket now = record ticket { used_list = ticket.used_list ++ now ∷ [] }

-- `!ticket.validUntil || ticket.validUntil >= new Date()`.
abbrev pub still_valid : Option ℕ → ℕ → Bool
still_valid none now = true
still_valid (some until) now = not (ltb until now)

abbrev pub is_set : Option ℕ → Bool
is_set none = false
is_set (some _) = true

-- The write of the changed ticket, and its tracking.
unfoldable pub record_use : Ticket → Handler Ticket
record_use changed = do
  used_ticket ← update changed
  found ← track_and_detect_abuse used_ticket
  pure found.1

unfoldable pub use_long_term : Ticket → Handler Ticket
use_long_term ticket = do
  s ← get_state
  require (is_set ticket.valid_from) not_activated
  require (still_valid ticket.valid_until s.now) long_term_expired
  record_use (use_now ticket s.now)

unfoldable pub handle_use_long_term_ticket : String → Handler Ticket
handle_use_long_term_ticket ticket_id s =
    rethrow_reference_error (with_ticket ticket_id null_access use_long_term s)

-- What one use of a short-term ticket makes of it, or why it is refused.
unfoldable pub short_term_use : Ticket → ℕ → Result Failure Ticket
short_term_use ticket now = elim ticket.ticket_type [
  | oneway ↦ ok (record (use_now ticket now) { status = used })
  | return ↦
      if length ticket.used_list == 0
      then ok (use_now ticket now)
      else if length ticket.used_list == 1
      then ok (record (use_now ticket now) { status = used })
      else err used_twice
  | _ ↦ err unsupported_type
]

unfoldable pub use_short_term : Ticket → Handler Ticket
use_short_term ticket s = continue (short_term_use ticket s.now, s) record_use

unfoldable pub handle_use_short_term_ticket : String → Handler Ticket
handle_use_short_term_ticket ticket_id s =
    rethrow_reference_error (with_ticket ticket_id null_access use_short_term s)

-- The handler that the type of the ticket selects.
unfoldable pub handle_use : Ticket → Handler Ticket
handle_use ticket =
    if is_short_term ticket.ticket_type
    then handle_use_short_term_ticket ticket.ticket_id
    else handle_use_long_term_ticket ticket.ticket_id

-- The statuses at which a gate refuses.
abbrev pub used_up : Status → Handler (Unit {0})
used_up status = do
  require (not (is_status status used)) already_used
  require (not (is_status status cancelled)) already_cancelled
  require (not (is_status status expired)) already_expired

-- The second tracking, of the row as it is after the use. Its errors are caught.
abbrev pub track_found : Ticket → Option Ticket → Handler Ticket
track_found result none s = (ok result, s)
track_found result (some fresh) s = (ok result, (track_and_detect_abuse fresh s).1)

unfoldable pub track_again : String → Ticket → Handler Ticket
track_again ticket_id result s = track_found result (find_by_pk ticket_id s.tickets) s

unfoldable pub use_found : Ticket → Handler Ticket
use_found ticket = do
  require (not (is_status ticket.status abused)) locked
  used_up ticket.status
  result ← handle_use ticket
  track_again ticket.ticket_id result

unfoldable pub use_ticket : String → Handler Ticket
use_ticket ticket_id s =
    rethrow_reference_error (with_ticket ticket_id ticket_not_found use_found s)

-- `scanned.split(':')[0]` and `[1]`; the whole text and nothing, where it has no colon.
abbrev pub before_colon : Text → Text
before_colon [] = []
before_colon (c ∷ cs) = let rest = before_colon cs in if c == b':' then [] else c ∷ rest

abbrev pub after_colon : Text → Option Text
after_colon [] = none
after_colon (c ∷ cs) =
    let rest = after_colon cs in if c == b':' then some (before_colon cs) else rest

-- `/^[0-9]{6}$/`.
abbrev pub is_six_digits : Text → Bool
is_six_digits code = length code == 6 && all_digits code

abbrev pub same_qr : Option Text → Text → Bool
same_qr none base = false
same_qr (some qr) base = text_eq qr base

-- `Ticket.findOne({ where: { qrCode } })`.
unfoldable pub find_by_qr : Text → List Ticket → Option Ticket
find_by_qr base [] = none
find_by_qr base (t ∷ ts) = if same_qr t.qr_code base then some t else find_by_qr base ts

module _ (hmac : String → ℤ → List ℕ) where
  -- The base and the code of a scan; without a colon the scan is the code alone.
  abbrev scanned_parts : Ticket → Text → Bool × Text
  scanned_parts ticket scanned = elim (after_colon scanned) [
    | none ↦ (true, scanned)
    | some code ↦ (same_qr ticket.qr_code (before_colon scanned), code)
  ]

  unfoldable pub use_abused : Text → Ticket → Handler Ticket
  use_abused scanned ticket = do
    s ← get_state
    let (base_matches, code) = scanned_parts ticket scanned
    require (is_six_digits code) code_required
    require base_matches bad_base
    require (verify_code hmac ticket.qr_secret code 1 s.now) bad_code
    handle_use ticket

  unfoldable pub handle_use_abused_ticket : String → Text → Handler Ticket
  handle_use_abused_ticket ticket_id scanned =
      with_ticket ticket_id ticket_not_found (use_abused scanned)

  unfoldable pub use_scanned : Text → Ticket → Handler Ticket
  use_scanned scanned ticket = do
    used_up ticket.status
    if is_status ticket.status abused
        then handle_use_abused_ticket ticket.ticket_id scanned
        else handle_use ticket

  unfoldable pub use_ticket_by_qr_code : Text → Handler Ticket
  use_ticket_by_qr_code scanned s =
      on_found (find_by_qr (before_colon scanned) s.tickets) qr_not_found (use_scanned scanned) s
