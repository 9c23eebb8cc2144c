-- ===== src/Account/Rows.antt =====
-- A search of the accounts after a write to one of them.
use metro_backend.Prelude.{
  ℕ, ◌+◌, leb, not, ◌&&◌, ◌≡◌, refl, ap, ◌∙◌, Bool, true, false, String, eq_iff, none, some, List,
  [], ◌∷◌, ◌++◌, inl, inr, Bool-cases, arith, if◌then◌else◌,
}
use metro_backend.Account.{
  User, find_user, has_id, update_row, inc_login_attempts, before_now, is_locked, max_attempts,
}

kept-either :
    (p : User → Bool) (f : User → User) (v : User) (b : Bool)
    → p (f v) ≡ p v
    → p (if b then f v else v) ≡ p v
kept-either p f v true h = h
kept-either p f v false h = refl

pub find_user-update_row :
    (p : User → Bool) (id : String) (f : User → User) (us : List User) (u : User)
    → ((v : User) → p (f v) ≡ p v)
    → find_user p us ≡ some u
    → find_user p (update_row id f us) ≡ some (if has_id id u then f u else u)
unfolding find_user update_row
find_user-update_row p id f [] u keeps e = cc
find_user-update_row p id f (v ∷ us) u keeps e = elim (Bool-cases (p v)) [
  | inl here ↦
      let this : v ≡ u = ground (arith, e, here) in
      rw (kept-either p f v (has_id id v) (keeps v), here)
        (ap (λ w. some (if has_id id w then f w else w)) this)
  | inr away ↦
      rw (kept-either p f v (has_id id v) (keeps v), away)
        (find_user-update_row p id f us u keeps (ground (arith, e, away)))
]

pub find_user-found :
    (p : User → Bool) (us : List User) (u : User) → find_user p us ≡ some u → p u ≡ true
unfolding find_user
find_user-found p [] u e = cc
find_user-found p (v ∷ us) u e = elim (Bool-cases (p v)) [
  | inl here ↦ ground (arith, e, here)
  | inr away ↦ find_user-found p us u (ground (arith, e, away))
]

-- The row that a search finds is written to.
pub find_user-write :
    (p : User → Bool) (f : User → User) (us : List User) (u : User)
    → ((v : User) → p (f v) ≡ p v)
    → find_user p us ≡ some u
    → find_user p (update_row u.id f us) ≡ some (f u)
find_user-write p f us u keeps e =
    find_user-update_row p u.id f us u keeps e ∙ ap some (ground (arith, eq_iff u.id u.id))

-- A new row is found where no other is.
pub find_user-new :
    (p : User → Bool) (us : List User) (u : User)
    → find_user p us ≡ none
    → p u ≡ true
    → find_user p (us ++ u ∷ []) ≡ some u
unfolding find_user
find_user-new p [] u e h = rw h refl
find_user-new p (v ∷ us) u e h = elim (Bool-cases (p v)) [
  | inl here ↦ ground (arith, e, here)
  | inr away ↦ rw away (find_user-new p us u (ground (arith, e, away)) h)
]

-- Where no row fits either of two tests, none fits the first.
pub find_user-either :
    (p q : User → Bool) (us : List User)
    → ((v : User) → p v ≡ true → q v ≡ true)
    → find_user q us ≡ none
    → find_user p us ≡ none
unfolding find_user
find_user-either p q [] h e = refl
find_user-either p q (v ∷ us) h e = ground (arith, e, h v, find_user-either p q us h)

pub inc_login_attempts-same :
    (now : ℕ) (read row : User)
    → ((inc_login_attempts now read row).id ≡ row.id)
      × ((inc_login_attempts now read row).email ≡ row.email)
unfolding inc_login_attempts
inc_login_attempts-same now read row = elim (Bool-cases (before_now now read.lock_until)) [
  | inl over ↦ rw over (refl, refl)
  | inr other ↦
      elim (Bool-cases (leb max_attempts (read.login_attempts + 1) && not (is_locked now read))) [
        | inl full ↦ rw (other, full) (refl, refl)
        | inr more ↦ rw (other, more) (refl, refl)
      ]
]
