-- ===== src/Account/Requests.antt =====
-- The requests of auth-service/src/services/user.service.js.
use metro_backend.Prelude.{
  ◌+◌, Bool, true, false, not, ◌&&◌, ◌||◌, leb, String, str_eq, Option, none, some, List, [], ◌∷◌,
  ◌++◌, Text, length, any, keep, if◌then◌else◌, ok, err, ◌>>=◌, ◌>>◌, pure, throw, or_throw,
  require, get_state,
}
use metro_backend.Prelude.Trim.{trim}
use metro_backend.Account.{
  User, Service, find_user, has_email, has_id, update_row, is_locked, set_token, later,
  stored_token, token_time, count_failure, record_login, mail_reset, user_not_found, locked,
  not_verified, password_required, wrong_password, email_exists, username_exists, admin_not_allowed,
  invalid_row, fields_required, password_short, redis_unavailable, bad_token, invalid_reset,
}

abbrev pub is_empty : Text → Bool
is_empty [] = true
is_empty (c ∷ cs) = false

abbrev pub or_passenger : Option (List String) → List String
or_passenger none = "passenger" ∷ []
or_passenger (some roles) = roles

abbrev pub is_admin : Option (List String) → Bool
is_admin none = false
is_admin (some roles) = any (str_eq "admin") roles

module _ (need_verification : Bool) (hash : Text → String) (compare : Text → String → Bool) where
  -- The end of `login`: the password is compared, and the rest is left for later.
  unfoldable pub check_password : User → Text → Service User
  check_password user password s =
      if compare password user.password
      then (ok user, later (record_login user) s)
      else (err wrong_password, later (count_failure user) s)

  unfoldable pub login : String → Text → Service User
  login email password = do
    s ← get_state
    user ← or_throw (find_user (has_email email) s.users) user_not_found
    require (not (is_locked s.now user)) locked
    require (not need_verification || user.is_verified) not_verified
    require (not (is_empty (trim password))) password_required
    check_password user (trim password)

  -- Who stands in the way of a new account.
  abbrev pub refuse_existing : String → Option User → Service (Unit {0})
  refuse_existing email none = pure tt
  refuse_existing email (some user) =
      throw (if str_eq user.email email then email_exists else username_exists)

  unfoldable pub create_user : User → Service User
  create_user user s = (ok user, record s { users = s.users ++ user ∷ [] })

  -- The id of the row and the validators of its columns are the database's.
  unfoldable pub signup :
      (String → String → Bool)
      → String
      → String
      → String
      → Text
      → Option (List String)
      → Service User
  signup is_valid_row new_id email username password roles = do
    s ← get_state
    refuse_existing email
        (find_user (λ u. str_eq u.email email || str_eq u.username username) s.users)
    require (not (is_admin roles)) admin_not_allowed
    require (is_valid_row email username) invalid_row
    create_user (record {
      id = new_id;
      email = email;
      username = username;
      password = hash password;
      is_verified = not need_verification;
      account_locked = false;
      roles = or_passenger roles;
      login_attempts = 0;
      lock_until = none;
      last_login_at = none;
    })

  module _ (sha256 : String → String) where
    abbrev pub store_token : Option User → String → Service Bool
    store_token none token s = (ok true, s)
    store_token (some user) token s =
        if s.redis_up
        then (
          ok true,
          later (mail_reset user.id token) (record s {
            reset_tokens =
                set_token user.id
                  (some (record { digest = sha256 token; expires_at = s.now + token_time }))
                  s.reset_tokens;
          }),
        )
        else (err redis_unavailable, s)

    -- The token is a random one.
    unfoldable pub forgot_password : String → String → Service Bool
    forgot_password email token s = store_token (find_user (has_email email) s.users) token s

    -- The new password is written, and the token is taken back.
    unfoldable pub write_password : String → Text → Service Bool
    write_password id password s = (
      ok true,
      record s {
        users =
            update_row id
              (λ row. record row {
                password = hash password;
                login_attempts = 0;
                lock_until = none;
                account_locked = false;
              })
              s.users;
        reset_tokens = if s.redis_up then set_token id none s.reset_tokens else s.reset_tokens;
      },
    )

    -- A token that is not stored gives null, as no connection does.
    unfoldable pub reset_password : String → String → Text → Service Bool
    reset_password token id new_password = do
      s ← get_state
      require (not (str_eq token "") && (not (str_eq id "") && not (is_empty new_password)))
          fields_required
      require (leb 6 (length (trim new_password))) password_short
      stored ← or_throw (stored_token id s) redis_unavailable
      require (not (str_eq stored.digest "") && str_eq (sha256 token) stored.digest) bad_token
      user ← or_throw (find_user (has_id id) s.users) invalid_reset
      write_password user.id (trim new_password)

-- Whether an account was there to unlock.
abbrev pub unlock_found : Option User → Service Bool
unlock_found none s = (ok false, s)
unlock_found (some user) s = (
  ok true,
  record s {
    users =
        update_row user.id
          (λ row. record row { login_attempts = 0; lock_until = none; account_locked = false })
          s.users;
  },
)

unfoldable pub unlock_user_account : String → Service Bool
unlock_user_account id s = unlock_found (find_user (has_id id) s.users) s

abbrev pub verify_found : Option User → Service Bool
verify_found none s = (ok false, s)
verify_found (some user) s = (
  ok true,
  record s { users = update_row user.id (λ row. record row { is_verified = true }) s.users },
)

-- The id is the one that a valid token of the mail carries.
unfoldable pub verify_email_token : Option String → Service Bool
verify_email_token none s = (ok false, s)
verify_email_token (some id) s = verify_found (find_user (has_id id) s.users) s

unfoldable pub delete_user_by_user_id : String → Service Bool
delete_user_by_user_id id s =
    (ok (any (has_id id) s.users), record s { users = keep (λ u. not (has_id id u)) s.users })
