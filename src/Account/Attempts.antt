-- ===== src/Account/Attempts.antt =====
-- How many passwords an attacker can try.
use metro_backend.Prelude.{
  ℕ, ◌+◌, ◌≤◌, ◌<◌, ◌≡◌, refl, sym, ap, subst, Bool, true, false, not, ◌||◌, String, str_eq, none,
  some, List, [], ◌∷◌, Text, arith, Bool-cases, inl, inr, leb, Result, ok, err, ◌⊎◌,
}
use metro_backend.Account.{
  User, Accounts, Refusal, wrong_password, locked, not_verified, password_required, Task,
  count_failure, find_user, has_email, is_locked, inc_login_attempts, do_task, do_tasks, settle,
  lock_time, max_attempts, later,
}
use metro_backend.Account.Requests.{check_password, login, is_empty}
use metro_backend.Prelude.Trim.{trim}
use metro_backend.Account.Rows.{find_user-write, inc_login_attempts-same}

-- A wait and the password that is tried after it.
pub record Try : Type 0 where
  pub wait : ℕ
  pub password : Text

-- The login got as far as comparing a password, which was a wrong one.
abbrev pub compared : {A : Type 0} → Result Refusal A → ℕ
compared (ok a) = 0
compared (err wrong_password) = 1
compared (err _) = 0

abbrev pub wait_for : ℕ → Accounts → Accounts
wait_for n s = record s { now = s.now + n }

unfoldable pub total_wait : List Try → ℕ
total_wait [] = 0
total_wait (t ∷ tries) = t.wait + total_wait tries

module _ (need_verification : Bool) (hash : Text → String) (compare : Text → String → Bool)
    (email : String) where
  -- One after the other, each with its task done before the next: how many wrong passwords were compared.
  unfoldable pub wrong_tries : List Try → Accounts → ℕ
  wrong_tries [] s = 0
  wrong_tries (t ∷ tries) s =
      let answer = login need_verification hash compare email t.password (wait_for t.wait s) in
      compared answer.0 + wrong_tries tries (settle true answer.1)

  -- None of the passwords is the account's.
  abbrev pub AllWrong : String → List Try → Type 0
  AllWrong digest [] = Unit
  AllWrong digest (t ∷ tries) = (compare (trim t.password) digest ≡ false) × AllWrong digest tries

  -- A try leaves the accounts as they are, or is compared, counted and left to be written down.
  data HowTried (u : User) (s : Accounts) : Result Refusal User × Accounts → Type 0 where
    refused : (e : Refusal) → compared {A = User} (err e) ≡ 0 → HowTried u s (err e, s)
    tried : is_locked s.now u ≡ false → HowTried u s (err wrong_password, later (count_failure u) s)

  login-HowTried :
      (password : Text) (u : User) (s : Accounts)
      → find_user (has_email email) s.users ≡ some u
      → compare (trim password) u.password ≡ false
      → HowTried u s (login need_verification hash compare email password s)
  unfolding login check_password
  login-HowTried password u s found wrong = elim (Bool-cases (is_locked s.now u)) [
    | inl shut ↦ rw (found, shut) (refused locked refl)
    | inr free ↦ elim (Bool-cases (not need_verification || u.is_verified)) [
      | inr unverified ↦ rw (found, free, unverified) (refused not_verified refl)
      | inl verified ↦ elim (Bool-cases (is_empty (trim password))) [
        | inl nothing ↦ rw (found, free, verified, nothing) (refused password_required refl)
        | inr given ↦ rw (found, free, verified, given, wrong) (tried free)
      ]
    ]
  ]

  pub login-locked :
      (password : Text) (u : User) (s : Accounts)
      → find_user (has_email email) s.users ≡ some u
      → is_locked s.now u ≡ true
      → login need_verification hash compare email password s ≡ (err locked, s)
  unfolding login
  login-locked password u s found shut = rw (found, shut) refl

  settle_none : (s : Accounts) → s.tasks ≡ [] → settle true s ≡ s
  unfolding settle do_tasks
  settle_none s none_left = rw none_left refl

  settle_one :
      (task : Task) (s : Accounts) → s.tasks ≡ [] → settle true (later task s) ≡ do_task true task s
  unfolding settle do_tasks
  settle_one task s none_left = rw none_left refl

  locked_tries :
      (tries : List Try) (u : User) (until : ℕ) (s : Accounts)
      → s.tasks ≡ []
      → find_user (has_email email) s.users ≡ some u
      → u.lock_until ≡ some until
      → s.now + total_wait tries < until
      → wrong_tries tries s ≡ 0
  unfolding wrong_tries total_wait
  locked_tries [] u until s idle found lock early = refl
  locked_tries (t ∷ tries) u until s idle found lock early =
      let now = wait_for t.wait s in
      rw (login-locked t.password u now found (ground (arith, lock, early)), settle_none now idle)
        (omega (arith, locked_tries tries u until now idle found lock (omega (arith, early))))

  -- The row after a wrong password was written down.
  counted : (u : User) (s : Accounts) → User
  counted u s = inc_login_attempts s.now u u

  settled_failure :
      (u : User) (s : Accounts)
      → s.tasks ≡ []
      → find_user (has_email email) s.users ≡ some u
      → let after = settle true (later (count_failure u) s) in
        (find_user (has_email email) after.users ≡ some (counted u s))
        × ((after.tasks ≡ []) × (after.now ≡ s.now))
  unfolding counted do_task inc_login_attempts
  settled_failure u s idle found = rw (settle_one (count_failure u) s idle) (
    find_user-write (has_email email) (inc_login_attempts s.now u) s.users u
        (λ v. ap (λ e. str_eq e email) (inc_login_attempts-same s.now u v).1) found,
    (idle, refl),
  )

  -- A row that is not locked is counted up, and locked at the limit.
  counted_row :
      (u : User) (s : Accounts)
      → u.lock_until ≡ none
      → u.login_attempts < max_attempts
      → ((counted u s).password ≡ u.password)
        × ((((counted u s).lock_until ≡ none)
              × (((counted u s).login_attempts ≡ u.login_attempts + 1)
                  × (u.login_attempts + 1 < max_attempts)))
            ⊎ ((counted u s).lock_until ≡ some (s.now + lock_time)))
  unfolding counted inc_login_attempts
  counted_row u s free few = elim (Bool-cases (leb max_attempts (u.login_attempts + 1))) [
    | inl full ↦ rw (free, full) (refl, inr refl)
    | inr more ↦ rw (free, more) (refl, inl (refl, (refl, ground (arith, more))))
  ]

  counted_tries :
      (tries : List Try) (u : User) (s : Accounts)
      → s.tasks ≡ []
      → find_user (has_email email) s.users ≡ some u
      → u.lock_until ≡ none
      → u.login_attempts < max_attempts
      → total_wait tries < lock_time
      → AllWrong u.password tries
      → wrong_tries tries s + u.login_attempts ≤ max_attempts
  unfolding wrong_tries total_wait
  counted_tries [] u s idle found lock few early wrong = omega (arith, few)
  counted_tries (t ∷ tries) u s idle found lock few early wrong =
      let now = wait_for t.wait s in
      step (λ v s2 i f l m w. counted_tries tries v s2 i f l m (omega (arith, early)) w)
        (login need_verification hash compare email t.password now)
        (login-HowTried t.password u now found wrong.0)
    where
      step :
          ((v : User) (s2 : Accounts)
            → s2.tasks ≡ []
            → find_user (has_email email) s2.users ≡ some v
            → v.lock_until ≡ none
            → v.login_attempts < max_attempts
            → AllWrong v.password tries
            → wrong_tries tries s2 + v.login_attempts ≤ max_attempts)
          → (answer : Result Refusal User × Accounts) → HowTried u (wait_for t.wait s) answer
          → compared answer.0 + wrong_tries tries (settle true answer.1) + u.login_attempts
            ≤ max_attempts
      step again _ (refused e none_counted) =
          rw (settle_none (wait_for t.wait s) idle, none_counted)
            (omega (arith, again u (wait_for t.wait s) idle found lock few wrong.1))
      step again _ (tried free) =
          let (there, (idle2, same)) = settled_failure u (wait_for t.wait s) idle found in
          let (password, after) = counted_row u (wait_for t.wait s) lock few in
          let s2 = settle true (later (count_failure u) (wait_for t.wait s)) in
          elim after [
            | inr shut ↦ omega (
              arith,
              few,
              locked_tries tries (counted u (wait_for t.wait s)) _ s2 idle2 there shut
                  (omega (arith, same, early)),
            )
            | inl (still, (up, more)) ↦ omega (
              arith,
              up,
              again (counted u (wait_for t.wait s)) s2 idle2 there still (omega (arith, up, more))
                  (subst (λ d. AllWrong d tries) (sym password) wrong.1),
            )
          ]

  -- While nothing waits to be written down and an account is not locked and has no failures, fewer
  -- than two hours of tries with wrong passwords, one after the other and each counted before the
  -- next, get at most five of them compared.
  pub wrong_tries-le :
      (tries : List Try) (u : User) (s : Accounts)
      → s.tasks ≡ []
      → find_user (has_email email) s.users ≡ some u
      → u.lock_until ≡ none
      → u.login_attempts ≡ 0
      → total_wait tries < lock_time
      → AllWrong u.password tries
      → wrong_tries tries s ≤ max_attempts
  wrong_tries-le tries u s idle found lock fresh early wrong =
      omega
        (arith, fresh, counted_tries tries u s idle found lock (omega (arith, fresh)) early wrong)
