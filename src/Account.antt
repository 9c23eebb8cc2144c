-- ===== src/Account.antt =====
-- auth-service/src/services/user.service.js and models/user.model.js: accounts, their logins and the
-- lock after too many of them, and the reset of a password. A statement sent to the database
-- succeeds and writes every column that it is given. What `setImmediate` leaves for later waits as a
-- task, with the row as it was read. Tokens of a session, events and log lines are left out.
mod Rows
pub mod Requests
pub mod Attempts
pub mod Sessions
pub mod Locked
pub mod Reset
pub mod Recovery
pub mod Signup
use metro_backend.Prelude.{
  ℕ, ◌+◌, ◌*◌, Bool, true, false, not, ◌&&◌, ◌||◌, ltb, leb, String, str_eq, Option, none, some,
  List, [], ◌∷◌, ◌++◌, Text, length, any, keep, if◌then◌else◌, Action, ok, err, ◌>>=◌, ◌>>◌, pure,
  throw, or_throw, require, get_state,
}

pub record User : Type 0 where
  pub id : String
  pub email : String
  pub username : String
  pub password : String
  pub is_verified : Bool
  pub account_locked : Bool
  pub roles : List String
  pub login_attempts : ℕ
  pub lock_until : Option ℕ
  pub last_login_at : Option ℕ

-- A reset token as Redis keeps it, under the id of its user.
pub record ResetToken : Type 0 where
  pub digest : String
  pub expires_at : ℕ

pub data Task : Type 0 where
  count_failure record_login : User → Task
  mail_reset : String → String → Task

pub record Accounts : Type 0 where
  pub now : ℕ
  pub redis_up : Bool
  pub users : List User
  pub reset_tokens : String → Option ResetToken
  pub tasks : List Task
  pub mailed : List (String × String)

pub data Refusal : Type 0 where
  user_not_found locked not_verified password_required wrong_password : Refusal
  email_exists username_exists admin_not_allowed invalid_row : Refusal
  fields_required password_short redis_unavailable bad_token invalid_reset : Refusal

abbrev pub Service : Type 0 → Type 0
Service = Action Accounts Refusal

unfoldable pub find_user : (User → Bool) → List User → Option User
find_user p [] = none
find_user p (u ∷ us) = let rest = find_user p us in if p u then some u else rest

abbrev pub has_email : String → User → Bool
has_email email u = str_eq u.email email

abbrev pub has_id : String → User → Bool
has_id id u = str_eq u.id id

-- An `UPDATE` of the row with the id.
unfoldable pub update_row : String → (User → User) → List User → List User
update_row id f [] = []
update_row id f (u ∷ us) = (if has_id id u then f u else u) ∷ update_row id f us

abbrev pub after_now : ℕ → Option ℕ → Bool
after_now now none = false
after_now now (some t) = ltb now t

abbrev pub before_now : ℕ → Option ℕ → Bool
before_now now none = false
before_now now (some t) = ltb t now

-- `isLocked`.
abbrev pub is_locked : ℕ → User → Bool
is_locked now u = after_now now u.lock_until

abbrev pub max_attempts : ℕ
max_attempts = 5

abbrev pub lock_time : ℕ
lock_time = 2 * 60 * 60 * 1000

-- What `incLoginAttempts` of a row, as it was read, writes.
unfoldable pub inc_login_attempts : ℕ → User → User → User
inc_login_attempts now read row =
    if before_now now read.lock_until
    then record row { login_attempts = 1; lock_until = none }
    else if leb max_attempts (read.login_attempts + 1) && not (is_locked now read)
    then record row {
      login_attempts = read.login_attempts + 1;
      lock_until = some (now + lock_time);
    }
    else record row { login_attempts = read.login_attempts + 1 }

-- What `resetLoginAttempts` and the update after it write.
unfoldable pub reset_login_attempts : ℕ → User → User
reset_login_attempts now row = record row {
  login_attempts = 0;
  lock_until = none;
  last_login_at = some now;
}

abbrev pub set_token :
    String → Option ResetToken → (String → Option ResetToken) → String → Option ResetToken
set_token id token tokens k = if str_eq id k then token else tokens k

-- One task that was left for later. A mail that is not delivered takes its token back.
unfoldable pub do_task : Bool → Task → Accounts → Accounts
do_task delivered (count_failure read) s = record s {
  users = update_row read.id (inc_login_attempts s.now read) s.users;
}
do_task delivered (record_login read) s = record s {
  users = update_row read.id (reset_login_attempts s.now) s.users;
}
do_task delivered (mail_reset id token) s =
    if delivered
    then record s { mailed = (id, token) ∷ s.mailed }
    else if s.redis_up
    then record s { reset_tokens = set_token id none s.reset_tokens }
    else s

unfoldable pub do_tasks : Bool → List Task → Accounts → Accounts
do_tasks delivered [] s = s
do_tasks delivered (task ∷ tasks) s = do_tasks delivered tasks (do_task delivered task s)

-- The event loop gets to everything that waits.
unfoldable pub settle : Bool → Accounts → Accounts
settle delivered s = do_tasks delivered s.tasks (record s { tasks = [] })

abbrev pub later : Task → Accounts → Accounts
later task s = record s { tasks = s.tasks ++ task ∷ [] }

abbrev pub unexpired : ℕ → Option ResetToken → Option ResetToken
unexpired now none = none
unexpired now (some t) = if ltb now t.expires_at then some t else none

-- `client.get` of the token of a user, with what `withRedisClient` gives when it is not connected.
abbrev pub stored_token : String → Accounts → Option ResetToken
stored_token id s = if s.redis_up then unexpired s.now (s.reset_tokens id) else none

abbrev pub token_time : ℕ
token_time = 600 * 1000
