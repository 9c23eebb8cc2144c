-- ===== src/Account/Sessions.antt =====
-- Logins, forgotten passwords, background tasks and time, in any order.
use metro_backend.Prelude.{
  ℕ, ◌+◌, ◌≡◌, refl, ap, Bool, true, false, not, ◌||◌, String, str_eq, Option, none, some, List, [],
  ◌∷◌, Text, arith, Bool-cases, inl, inr,
}
use metro_backend.Account.{
  User, Accounts, Task, count_failure, record_login, mail_reset, find_user, has_email, is_locked,
  do_task, later,
}
use metro_backend.Account.Requests.{check_password, login, is_empty, forgot_password, store_token}
use metro_backend.Prelude.Trim.{trim}

-- What happens while an account is locked: logins and forgotten passwords, of this account or of
-- another, tasks that are done, and time that passes.
pub data Event : Type 0 where
  logs_in : String → Text → Event
  forgets : String → String → Event
  does_task : Bool → Event
  waits : ℕ → Event

-- The first task that waits.
abbrev pub do_first : Bool → List Task → Accounts → Accounts
do_first delivered [] s = s
do_first delivered (task ∷ tasks) s = do_task delivered task (record s { tasks = tasks })

unfoldable pub time_of : List Event → ℕ
time_of [] = 0
time_of (waits n ∷ events) = n + time_of events
time_of (_ ∷ events) = time_of events

module _ (need_verification : Bool) (hash : Text → String) (compare : Text → String → Bool)
    (sha256 : String → String) where
  unfoldable pub serve : Event → Accounts → Accounts
  serve (logs_in email password) s = (login need_verification hash compare email password s).1
  serve (forgets email token) s =
      (forgot_password need_verification hash compare sha256 email token s).1
  serve (does_task delivered) s = do_first delivered s.tasks s
  serve (waits n) s = record s { now = s.now + n }

  unfoldable pub serve_all : List Event → Accounts → Accounts
  serve_all [] s = s
  serve_all (event ∷ events) s = serve_all events (serve event s)

-- The task writes to no row of the id.
abbrev pub spares : String → Task → Bool
spares id (count_failure u) = not (str_eq u.id id)
spares id (record_login u) = not (str_eq u.id id)
spares id (mail_reset k token) = true

do_task-now :
    (delivered : Bool) (task : Task) (s : Accounts) → (do_task delivered task s).now ≡ s.now
unfolding do_task
do_task-now delivered (count_failure v) s = refl
do_task-now delivered (record_login v) s = refl
do_task-now true (mail_reset id token) s = refl
do_task-now false (mail_reset id token) s = ground arith

module _ (need_verification : Bool) (hash : Text → String) (compare : Text → String → Bool)
    (sha256 : String → String) where
  -- A login by an email leaves the accounts, and what to write down about the row it found.
  pub data HowLeft (email : String) (s : Accounts) : Accounts → Type 0 where
    unchanged : HowLeft email s s
    queued :
        (v : User) (task : Task)
        → find_user (has_email email) s.users ≡ some v
        → ((id : String) → str_eq v.id id ≡ false → spares id task ≡ true)
        → HowLeft email s (later task s)

  pub login-HowLeft :
      (email : String) (password : Text) (s : Accounts)
      → HowLeft email s (login need_verification hash compare email password s).1
  unfolding login check_password
  login-HowLeft email password s = go (find_user (has_email email) s.users) refl
    where
      go :
          (o : Option User)
          → find_user (has_email email) s.users ≡ o
          → HowLeft email s (login need_verification hash compare email password s).1
      go none missing = rw missing unchanged
      go (some v) found = elim (Bool-cases (is_locked s.now v)) [
        | inl barred ↦ rw (found, barred) unchanged
        | inr free ↦ elim (Bool-cases (not need_verification || v.is_verified)) [
          | inr unverified ↦ rw (found, free, unverified) unchanged
          | inl verified ↦ elim (Bool-cases (is_empty (trim password))) [
            | inl nothing ↦ rw (found, free, verified, nothing) unchanged
            | inr given ↦ elim (Bool-cases (compare (trim password) v.password)) [
              | inl right ↦
                  rw (found, free, verified, given, right)
                    (queued v (record_login v) found λ id h. ground (arith, h))
              | inr wrong ↦
                  rw (found, free, verified, given, wrong)
                    (queued v (count_failure v) found λ id h. ground (arith, h))
            ]
          ]
        ]
      ]

  login-now : (email : String) (s r : Accounts) → HowLeft email s r → r.now ≡ s.now
  login-now email s _ unchanged = refl
  login-now email s _ (queued v task found spare) = refl

  pub serve-now :
      (event : Event) (events : List Event) (s : Accounts)
      → (serve need_verification hash compare sha256 event s).now + time_of events
        ≡ s.now + time_of (event ∷ events)
  unfolding serve time_of
  serve-now (logs_in email password) events s =
      ap (λ n. n + time_of events) (login-now email s _ (login-HowLeft email password s))
  serve-now (forgets email token) events s =
      ap (λ n. n + time_of events)
        (unfold forgot_password in stored (find_user (has_email email) s.users))
    where
      stored :
          (o : Option User)
          → (store_token need_verification hash compare sha256 o token s).1.now ≡ s.now
      stored none = refl
      stored (some v) = ground arith
  serve-now (does_task delivered) events s = ap (λ n. n + time_of events) (first s.tasks)
    where
      first : (tasks : List Task) → (do_first delivered tasks s).now ≡ s.now
      first [] = refl
      first (task ∷ tasks) = do_task-now delivered task (record s { tasks = tasks })
  serve-now (waits n) events s = omega arith
