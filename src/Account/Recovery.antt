-- ===== src/Account/Recovery.antt =====
-- A password that is forgotten, reset and used.
use metro_backend.Prelude.{
  ℕ, ◌+◌, ◌<◌, ◌≡◌, refl, ap, ◌∙◌, Bool, true, false, not, ◌||◌, String, str_eq, eq_iff, none, some,
  [], ◌∷◌, Text, length, arith, inl, inr, leb, ok, is_ok,
}
use metro_backend.Account.{
  User, Accounts, find_user, has_email, has_id, settle, do_tasks, do_task, token_time, stored_token,
}
use metro_backend.Account.Requests.{
  check_password, login, is_empty, forgot_password, write_password,
}
use metro_backend.Prelude.Trim.{trim}
use metro_backend.Account.Rows.{find_user-write}
use metro_backend.Account.Reset.{reset, with_password, reset_password-token, reset_password-writes}

module _ (need_verification : Bool) (hash : Text → String) (compare : Text → String → Bool)
    (sha256 : String → String) where
  long_enough : (t : Text) → leb 6 (length t) ≡ true → is_empty t ≡ false
  long_enough [] h = ground arith
  long_enough (c ∷ t) h = refl

  long_given : (t : Text) → leb 6 (length (trim t)) ≡ true → is_empty t ≡ false
  long_given [] h = unfold trim in ground arith
  long_given (c ∷ t) h = refl

  module _ (email token : String) (new_password : Text) (u : User) (wait : ℕ) (s : Accounts) where
    -- The mail with the token is asked for and sent.
    abbrev pub mailed : Accounts
    mailed = settle true (forgot_password need_verification hash compare sha256 email token s).1

    abbrev pub waited : Accounts
    waited = record mailed { now = mailed.now + wait }

    -- What the token of the mail needs to reset the password.
    pub record CanReset : Type 0 where
      pub idle : s.tasks ≡ []
      pub up : s.redis_up ≡ true
      pub row : find_user (has_email email) s.users ≡ some u
      pub by_id : find_user (has_id u.id) s.users ≡ some u
      pub given : str_eq token "" ≡ false
      pub known : str_eq u.id "" ≡ false
      pub digest : str_eq (sha256 token) "" ≡ false
      pub long : leb 6 (length (trim new_password)) ≡ true
      pub early : wait < token_time

    mailed_state :
        CanReset
        → (mailed.users ≡ s.users)
          × ((mailed.redis_up ≡ true)
              × ((mailed.now ≡ s.now)
                  × (mailed.reset_tokens u.id
                      ≡ some (record { digest = sha256 token; expires_at = s.now + token_time }))))
    unfolding forgot_password settle do_tasks do_task
    mailed_state can =
        rw (can.row, can.up, can.idle) (refl, (refl, (refl, ground (arith, eq_iff u.id u.id))))

    waited_token :
        CanReset
        → stored_token u.id waited
          ≡ some (record { digest = sha256 token; expires_at = s.now + token_time })
    waited_token can =
        let (users, (up, (now, there))) = mailed_state can in
        rw (up, there) (ground (arith, now, can.early))

    -- The accounts after the reset.
    abbrev after : Accounts
    after = (write_password need_verification hash compare sha256 u.id (trim new_password) waited).1

    reset-waited :
        CanReset
        → reset need_verification hash compare sha256 token u.id new_password waited
          ≡ write_password need_verification hash compare sha256 u.id (trim new_password) waited
    reset-waited can =
        reset_password-writes need_verification hash compare sha256 token u.id new_password u _
          waited can.given can.known can.long (long_given new_password can.long) (waited_token can)
          can.digest (ground (arith, eq_iff (sha256 token) (sha256 token)))
          (ap (find_user (has_id u.id)) (mailed_state can).0 ∙ can.by_id)

    after_row :
        CanReset
        → find_user (has_email email) after.users
          ≡ some (with_password need_verification hash compare sha256 (trim new_password) u)
    unfolding write_password
    after_row can =
        find_user-write (has_email email)
          (with_password need_verification hash compare sha256 (trim new_password)) mailed.users u
          (λ v. refl) (ap (find_user (has_email email)) (mailed_state can).0 ∙ can.row)

    after_token : CanReset → after.reset_tokens u.id ≡ none
    unfolding write_password
    after_token can = rw ((mailed_state can).1.0) (ground (arith, eq_iff u.id u.id))

    login-after :
        CanReset
        → not need_verification || u.is_verified ≡ true
        → compare (trim new_password) (hash (trim new_password)) ≡ true
        → is_ok (login need_verification hash compare email new_password after).0 ≡ true
    unfolding login check_password
    login-after can verified right =
        rw (after_row can, verified, long_enough (trim new_password) can.long, right) refl

    refused_again :
        CanReset
        → (again : String) (other : Text)
        → is_ok (reset need_verification hash compare sha256 again u.id other after).0 ≡ false
    refused_again can again other =
        elim (reset_password-token need_verification hash compare sha256 again u.id other after) [
          | inr (e, same) ↦ ap (λ r. is_ok r.0) same
          | inl (stored, (there, live)) ↦ absurd (ground (arith, there, after_token can))
        ]

    -- A reset with the token that was mailed, less than ten minutes after it was asked for, is
    -- answered: the account, verified where that is needed, logs in with the new password, and no
    -- further reset of it is answered, with this token or another. The connection to Redis stands, no
    -- task waits, and the new password is one that the comparison accepts against its own hash and has
    -- six characters or more between its spaces.
    pub reset_password-login :
        CanReset
        → not need_verification || u.is_verified ≡ true
        → compare (trim new_password) (hash (trim new_password)) ≡ true
        → (again : String) (other : Text)
        → ((reset need_verification hash compare sha256 token u.id new_password waited).0 ≡ ok true)
          × ((is_ok
                  (login need_verification hash compare email new_password
                    (reset need_verification hash compare sha256 token u.id new_password
                      waited).1).0
                ≡ true)
              × (is_ok
                    (reset need_verification hash compare sha256 again u.id other
                      (reset need_verification hash compare sha256 token u.id new_password
                        waited).1).0
                  ≡ false))
    reset_password-login can verified right again other = rw (reset-waited can) (
      unfold write_password in refl,
      (login-after can verified right, refused_again can again other),
    )
