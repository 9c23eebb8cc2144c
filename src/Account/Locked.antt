-- ===== src/Account/Locked.antt =====
-- A locked account while others log in, and while it is tried itself.
use metro_backend.Prelude.{
  ℕ, ◌+◌, ◌<◌, ◌≡◌, refl, sym, ap, subst, ◌∙◌, Bool, true, false, String, str_eq, eq_iff, Option,
  none, some, List, [], ◌∷◌, ◌++◌, Text, All, arith, Bool-cases, inl, inr, err,
}
use metro_backend.Account.{
  User, Accounts, locked, Task, count_failure, record_login, mail_reset, find_user, has_email,
  has_id, update_row, inc_login_attempts, reset_login_attempts, do_task, later,
}
use metro_backend.Account.Requests.{login, forgot_password, store_token}
use metro_backend.Account.Sessions.{
  Event, logs_in, forgets, does_task, waits, do_first, time_of, serve, serve_all, spares, HowLeft,
  unchanged, queued, login-HowLeft, serve-now,
}
use metro_backend.Account.Attempts.{login-locked}
use metro_backend.Account.Rows.{find_user-update_row, find_user-found, inc_login_attempts-same}

-- Only rows of the email have the id.
abbrev pub IsOwn : User → User → Type 0
IsOwn u v = has_id u.id v ≡ true → has_email u.email v ≡ true

-- The account's row, which is locked, and no task about it.
pub record IsShut (u : User) (until : ℕ) (s : Accounts) : Type 0 where
  pub row : find_user (has_email u.email) s.users ≡ some u
  pub own : All (IsOwn u) s.users
  pub spared : All (λ t. spares u.id t ≡ true) s.tasks
  pub lock : u.lock_until ≡ some until

find_user-All :
    (P : User → Type 0) (p : User → Bool) (us : List User) (v : User)
    → find_user p us ≡ some v
    → All P us
    → P v
unfolding find_user
find_user-All P p [] v e h = cc
find_user-All P p (w ∷ us) v e h = elim (Bool-cases (p w)) [
  | inl here ↦ (let this : w ≡ v = ground (arith, e, here) in subst P this h.0)
  | inr away ↦ find_user-All P p us v (ground (arith, e, away)) h.1
]

update_row-All :
    (P : User → Type 0) (id : String) (f : User → User) (us : List User)
    → ((v : User) → P v → P (f v))
    → All P us
    → All P (update_row id f us)
unfolding update_row
update_row-All P id f [] keeps h = tt
update_row-All P id f (v ∷ us) keeps h = elim (Bool-cases (has_id id v)) [
  | inl this ↦ rw this (keeps v h.0, update_row-All P id f us keeps h.1)
  | inr other ↦ rw other (h.0, update_row-All P id f us keeps h.1)
]

append-All :
    {A : Type 0} (P : A → Type 0) (xs : List A) (x : A) → All P xs → P x → All P (xs ++ x ∷ [])
append-All P [] x h p = (p, tt)
append-All P (y ∷ xs) x h p = (h.0, append-All P xs x h.1 p)

module _ (u : User) (until : ℕ) (s : Accounts) (shut : IsShut u until s) where
  -- A row that another email finds is another account's.
  other_account :
      (email : String) (v : User)
      → find_user (has_email email) s.users ≡ some v
      → str_eq email u.email ≡ false
      → str_eq v.id u.id ≡ false
  other_account email v found other = elim (Bool-cases (str_eq v.id u.id)) [
    | inr differs ↦ differs
    | inl same ↦ absurd (
        ground (
          arith,
          find_user-All (IsOwn u) (has_email email) s.users v found shut.own same,
          find_user-found (has_email email) s.users v found,
          eq_iff v.email email,
          other,
        ))
  ]

  -- A write to another id keeps the row.
  written-IsShut :
      (id : String) (f : User → User) (tasks : List Task)
      → ((v : User) → ((f v).id ≡ v.id) × ((f v).email ≡ v.email))
      → str_eq id u.id ≡ false
      → All (λ t. spares u.id t ≡ true) tasks
      → IsShut u until (record s { users = update_row id f s.users; tasks = tasks })
  written-IsShut id f tasks same other spared = record {
    row =
        find_user-update_row (has_email u.email) id f s.users u
          (λ v. ap (λ e. str_eq e u.email) (same v).1) shut.row
        ∙ ap some (ground (arith, other, eq_iff u.id id, eq_iff id u.id));
    own =
        update_row-All (IsOwn u) id f s.users
          (λ v h g. ground (arith, same v, h (ground (arith, same v, g)))) shut.own;
    spared = spared;
    lock = shut.lock;
  }

  later-IsShut : (task : Task) → spares u.id task ≡ true → IsShut u until (later task s)
  later-IsShut task spare = record {
    row = shut.row;
    own = shut.own;
    spared = append-All (λ t. spares u.id t ≡ true) s.tasks task shut.spared spare;
    lock = shut.lock;
  }

  do_task-IsShut :
      (delivered : Bool) (task : Task) (tasks : List Task)
      → spares u.id task ≡ true
      → All (λ t. spares u.id t ≡ true) tasks
      → IsShut u until (do_task delivered task (record s { tasks = tasks }))
  unfolding do_task
  do_task-IsShut delivered (count_failure v) tasks spare spared =
      written-IsShut v.id (inc_login_attempts s.now v) tasks (inc_login_attempts-same s.now v)
        (ground (arith, spare)) spared
  do_task-IsShut delivered (record_login v) tasks spare spared =
      written-IsShut v.id (reset_login_attempts s.now) tasks
        (λ w. unfold reset_login_attempts in (refl, refl)) (ground (arith, spare)) spared
  do_task-IsShut true (mail_reset id token) tasks spare spared = record {
    row = shut.row;
    own = shut.own;
    spared = spared;
    lock = shut.lock;
  }
  do_task-IsShut false (mail_reset id token) tasks spare spared = elim (Bool-cases s.redis_up) [
    | inl up ↦ rw up (record { row = shut.row; own = shut.own; spared = spared; lock = shut.lock })
    | inr broken ↦
        rw broken (record { row = shut.row; own = shut.own; spared = spared; lock = shut.lock })
  ]

module _ (need_verification : Bool) (hash : Text → String) (compare : Text → String → Bool)
    (sha256 : String → String) where
  module _ (u : User) (until : ℕ) where
    login-IsShut :
        (email : String) (password : Text) (s : Accounts)
        → IsShut u until s
        → s.now < until
        → IsShut u until (login need_verification hash compare email password s).1
    login-IsShut email password s shut early = elim (Bool-cases (str_eq email u.email)) [
      | inl own ↦
          let same = (eq_iff email u.email).0 own in
          rw
            (login-locked need_verification hash compare email password u s
              (subst (λ e. find_user (has_email e) s.users ≡ some u) (sym same) shut.row)
              (ground (arith, shut.lock, early)))
            shut
      | inr other ↦
          go other _ (login-HowLeft need_verification hash compare sha256 email password s)
    ]
      where
        go :
            str_eq email u.email ≡ false
            → (r : Accounts) → HowLeft need_verification hash compare sha256 email s r
            → IsShut u until r
        go other _ unchanged = shut
        go other _ (queued v task found spare) =
            later-IsShut u until s shut task
              (spare u.id (other_account u until s shut email v found other))

    serve-IsShut :
        (event : Event) (s : Accounts)
        → IsShut u until s
        → s.now < until
        → IsShut u until (serve need_verification hash compare sha256 event s)
    serve-IsShut (logs_in email password) s shut early =
        unfold serve in login-IsShut email password s shut early
    serve-IsShut (forgets email token) s shut early =
        unfold serve forgot_password in stored (find_user (has_email email) s.users)
      where
        stored :
            (o : Option User)
            → IsShut u until (store_token need_verification hash compare sha256 o token s).1
        stored none = shut
        stored (some v) = elim (Bool-cases s.redis_up) [
          | inr broken ↦
              rw broken
                (record { row = shut.row; own = shut.own; spared = shut.spared; lock = shut.lock })
          | inl up ↦ rw up (
              later-IsShut u until _
                (record { row = shut.row; own = shut.own; spared = shut.spared; lock = shut.lock })
                (mail_reset v.id token) refl)
        ]
    serve-IsShut (does_task delivered) s shut early = unfold serve in first s.tasks shut.spared
      where
        first :
            (tasks : List Task)
            → All (λ t. spares u.id t ≡ true) tasks
            → IsShut u until (do_first delivered tasks s)
        first [] h = shut
        first (task ∷ tasks) h = do_task-IsShut u until s shut delivered task tasks h.0 h.1
    serve-IsShut (waits n) s shut early =
        unfold serve in
        record { row = shut.row; own = shut.own; spared = shut.spared; lock = shut.lock }

    -- From a locked account whose id no other email has and about which nothing waits: whatever logins
    -- and forgotten passwords arrive and whatever tasks are done, before the lock is over, the row is
    -- as it was and every login of the account is refused as of a locked one, with any password.
    pub serve_all-locked :
        (events : List Event) (s : Accounts) (password : Text)
        → IsShut u until s
        → s.now + time_of events < until
        → let after = serve_all need_verification hash compare sha256 events s in
          (find_user (has_email u.email) after.users ≡ some u)
          × (login need_verification hash compare u.email password after ≡ (err locked, after))
    unfolding serve_all time_of
    serve_all-locked [] s password shut early = (
      shut.row,
      login-locked need_verification hash compare u.email password u s shut.row
          (ground (arith, shut.lock, early)),
    )
    serve_all-locked (event ∷ events) s password shut early =
        serve_all-locked events (serve need_verification hash compare sha256 event s) password
          (serve-IsShut event s shut (omega (arith, early)))
          (omega (arith, early, serve-now need_verification hash compare sha256 event events s))
