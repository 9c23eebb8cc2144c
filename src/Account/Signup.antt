-- ===== src/Account/Signup.antt =====
-- The first login of a new account.
use metro_backend.Prelude.{
  ◌≡◌, refl, Bool, true, false, not, ◌&&◌, ◌||◌, String, str_eq, eq_iff, Option, none, some, List,
  [], ◌∷◌, ◌++◌, Text, arith, Bool-cases, inl, inr, Result, ok, is_ok,
}
use metro_backend.Account.{User, Accounts, Refusal, find_user, has_email}
use metro_backend.Account.Requests.{
  signup, create_user, is_admin, login, check_password, is_empty, or_passenger,
}
use metro_backend.Prelude.Trim.{trim}
use metro_backend.Account.Rows.{find_user-new, find_user-either}

module _ (need_verification : Bool) (hash : Text → String) (compare : Text → String → Bool)
    (is_valid_row : String → String → Bool) (new_id email username : String) (password : Text)
    (roles : Option (List String)) (s : Accounts) where
  abbrev pub signed_up : Result Refusal User × Accounts
  signed_up =
      signup need_verification hash compare is_valid_row new_id email username password roles s

  -- The row of a new account.
  abbrev new_user : User
  new_user = record {
    id = new_id;
    email = email;
    username = username;
    password = hash password;
    is_verified = not need_verification;
    account_locked = false;
    roles = or_passenger roles;
    login_attempts = 0;
    lock_until = none;
    last_login_at = none;
  }

  -- A sign-up that is answered finds no account of the email or the name, and makes one.
  signup_made :
      is_ok signed_up.0 ≡ true
      → (find_user (λ u. str_eq u.email email || str_eq u.username username) s.users ≡ none)
        × ((is_admin roles ≡ false)
            × (signed_up ≡ (ok new_user, record s { users = s.users ++ new_user ∷ [] })))
  unfolding signup create_user
  signup_made answered =
      go (find_user (λ u. str_eq u.email email || str_eq u.username username) s.users) refl
    where
      go :
          (o : Option User)
          → find_user (λ u. str_eq u.email email || str_eq u.username username) s.users ≡ o
          → (find_user (λ u. str_eq u.email email || str_eq u.username username) s.users ≡ none)
            × ((is_admin roles ≡ false)
                × (signed_up ≡ (ok new_user, record s { users = s.users ++ new_user ∷ [] })))
      go (some u) taken = absurd (ground (arith, (rw taken at answered)))
      go none free = elim (Bool-cases (is_admin roles)) [
        | inl admin ↦ absurd (ground (arith, (rw (free, admin) at answered)))
        | inr plain ↦ elim (Bool-cases (is_valid_row email username)) [
          | inr invalid ↦ absurd (ground (arith, (rw (free, plain, invalid) at answered)))
          | inl valid ↦ rw (free, plain, valid) (refl, (refl, refl))
        ]
      ]

  -- A sign-up that is answered makes no administrator, of no email that an account has. Where no
  -- email is to be verified, the new account logs in with its password exactly where the comparison
  -- accepts the password without the spaces around it against the hash of the password as it was
  -- given, and something is left of it.
  signup-login :
      is_ok signed_up.0 ≡ true
      → need_verification ≡ false
      → (is_admin roles ≡ false)
        × ((find_user (has_email email) s.users ≡ none)
            × (is_ok (login need_verification hash compare email password signed_up.1).0
                ≡ not (is_empty (trim password)) && compare (trim password) (hash password)))
  unfolding login check_password
  signup-login answered free =
      let (unused, (role, made)) = signup_made answered in
      let fresh = find_user-either (has_email email) _ s.users (λ v h. ground (arith, h)) unused in
      (
        role,
        (
          fresh,
          rw
              (
                made,
                find_user-new (has_email email) s.users new_user fresh
                    (ground (arith, eq_iff email email)),
                free,
              )
              (elim (Bool-cases (is_empty (trim password))) [
                | inl nothing ↦ rw nothing refl
                | inr some_left ↦ elim (Bool-cases (compare (trim password) (hash password))) [
                  | inl right ↦ rw (some_left, right) refl
                  | inr wrong ↦ rw (some_left, wrong) refl
                ]
              ]),
        ),
      )
