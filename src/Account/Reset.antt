-- ===== src/Account/Reset.antt =====
-- A password that is reset with the token of a mail.
use metro_backend.Prelude.{
  ◌<◌, ◌≡◌, refl, ap, ◌∙◌, Bool, true, false, not, ◌&&◌, String, str_eq, Option, none, some, Text,
  length, arith, Bool-cases, inl, inr, leb, Result, err, ◌>>=◌, ◌>>◌, or_throw, require, continue,
  ◌⊎◌,
}
use metro_backend.Account.{
  User, Accounts, ResetToken, Refusal, find_user, has_id, stored_token, redis_unavailable,
  bad_token, password_short, fields_required, invalid_reset,
}
use metro_backend.Account.Requests.{is_empty, write_password, reset_password}
use metro_backend.Prelude.Trim.{trim}

module _ (need_verification : Bool) (hash : Text → String) (compare : Text → String → Bool)
    (sha256 : String → String) where
  -- The row with a new password.
  abbrev pub with_password : Text → User → User
  with_password password row = record row {
    password = hash password;
    login_attempts = 0;
    lock_until = none;
    account_locked = false;
  }

  abbrev pub reset : String → String → Text → Accounts → Result Refusal Bool × Accounts
  reset = reset_password need_verification hash compare sha256

  -- A reset is refused and changes nothing, or writes the password of the account of its token.
  data HowReset (token id : String) (new_password : Text) (s : Accounts)
      : Result Refusal Bool × Accounts → Type 0 where
    refused : (e : Refusal) → HowReset token id new_password s (err e, s)
    written :
        (u : User) (stored : ResetToken)
        → stored_token id s ≡ some stored
        → str_eq (sha256 token) stored.digest ≡ true
        → HowReset token id new_password s
            (write_password need_verification hash compare sha256 u.id (trim new_password) s)

  reset_password-HowReset :
      (token id : String) (new_password : Text) (s : Accounts)
      → HowReset token id new_password s (reset token id new_password s)
  unfolding reset_password
  reset_password-HowReset token id new_password s =
      elim (Bool-cases
        (not (str_eq token "") && (not (str_eq id "") && not (is_empty new_password)))) [
          | inr missing ↦ rw missing (refused fields_required)
          | inl given ↦ elim (Bool-cases (leb 6 (length (trim new_password)))) [
            | inr short ↦ rw (given, short) (refused password_short)
            | inl long ↦ rw (given, long) (with_token (stored_token id s) refl)
          ]
        ]
    where
      with_user :
          (stored : ResetToken)
          → stored_token id s ≡ some stored
          → str_eq (sha256 token) stored.digest ≡ true
          → (o : Option User)
          → HowReset token id new_password s (
              continue {S = Accounts} (or_throw o invalid_reset s) λ (user : User).
                write_password need_verification hash compare sha256 user.id (trim new_password))
      with_user stored there same none = refused invalid_reset
      with_user stored there same (some u) = written u stored there same

      with_token :
          (o : Option ResetToken)
          → stored_token id s ≡ o
          → HowReset token id new_password s (
              continue {S = Accounts} (or_throw o redis_unavailable s) λ (stored : ResetToken).
                require
                  (not (str_eq stored.digest "") && str_eq (sha256 token) stored.digest)
                  bad_token
                >> (or_throw (find_user (has_id id) s.users) invalid_reset >>= λ (user : User).
                    write_password need_verification hash compare sha256 user.id
                      (trim new_password)))
      with_token none e = refused redis_unavailable
      with_token (some stored) e =
          elim (Bool-cases (not (str_eq stored.digest "") && str_eq (sha256 token) stored.digest)) [
            | inr differs ↦ rw differs (refused bad_token)
            | inl same ↦
                rw same (with_user stored e (ground (arith, same)) (find_user (has_id id) s.users))
          ]

  -- A reset that is answered had the token of the account: its digest is stored under the id and is not
  -- over. A reset without it is refused and changes nothing.
  pub reset_password-token :
      (token id : String) (new_password : Text) (s : Accounts)
      → ((stored : ResetToken) × ((s.reset_tokens id ≡ some stored)
            × ((s.now < stored.expires_at) × (str_eq (sha256 token) stored.digest ≡ true))))
        ⊎ ((e : Refusal) × (reset token id new_password s ≡ (err e, s)))
  reset_password-token token id new_password s =
      go _ (reset_password-HowReset token id new_password s)
    where
      live :
          (stored : ResetToken)
          → stored_token id s ≡ some stored
          → str_eq (sha256 token) stored.digest ≡ true
          → (o : Option ResetToken) → s.reset_tokens id ≡ o
          → (s.reset_tokens id ≡ some stored)
            × ((s.now < stored.expires_at) × (str_eq (sha256 token) stored.digest ≡ true))
      live stored there same none e = absurd (ground (arith, there, e))
      live stored there same (some t) e =
          let this : t ≡ stored = ground (arith, there, e) in
          (e ∙ ap some this, (ground (arith, there, e, this), same))

      go :
          (r : Result Refusal Bool × Accounts)
          → HowReset token id new_password s r
          → ((stored : ResetToken) × ((s.reset_tokens id ≡ some stored)
                × ((s.now < stored.expires_at) × (str_eq (sha256 token) stored.digest ≡ true))))
            ⊎ ((e : Refusal) × (r ≡ (err e, s)))
      go _ (refused e) = inr (e, refl)
      go _ (written u stored there same) =
          inl (stored, live stored there same (s.reset_tokens id) refl)

  -- With the stored token a reset writes the password and takes the token back.
  pub reset_password-writes :
      (token id : String) (new_password : Text) (u : User) (stored : ResetToken) (s : Accounts)
      → str_eq token "" ≡ false
      → str_eq id "" ≡ false
      → leb 6 (length (trim new_password)) ≡ true
      → is_empty new_password ≡ false
      → stored_token id s ≡ some stored
      → str_eq stored.digest "" ≡ false
      → str_eq (sha256 token) stored.digest ≡ true
      → find_user (has_id id) s.users ≡ some u
      → reset token id new_password s
        ≡ write_password need_verification hash compare sha256 u.id (trim new_password) s
  unfolding reset_password
  reset_password-writes token id new_password u stored s given known long some_text there full same
        found =
      rw (given, known, long, some_text, there, full, same, found) refl
