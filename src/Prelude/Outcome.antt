-- ===== src/Prelude/Outcome.antt =====
-- A value or the error that was thrown, and actions that mutate a state and may throw. What was
-- written before a throw stays written, so the state comes back beside the error too.
use mathlib.Core.Path.{◌≡◌, refl}
use mathlib.Core.Bool.{Bool, true, false}
use mathlib.Core.Option.{Option, none, some}

pub data Result (E A : Type 0) : Type 0 where
  ok : A → Result E A
  err : E → Result E A

abbrev pub is_ok : {E A : Type 0} → Result E A → Bool
is_ok (ok a) = true
is_ok (err e) = false

abbrev pub Action : Type 0 → Type 0 → Type 0 → Type 0
Action S E A = S → Result E A × S

module _ {S E A : Type 0} where
  abbrev pub pure : A → Action S E A
  pure a s = (ok a, s)

  abbrev pub throw : E → Action S E A
  throw e s = (err e, s)

  -- `throw` where a value is missing.
  abbrev pub or_throw : Option A → E → Action S E A
  or_throw none e s = (err e, s)
  or_throw (some a) e s = (ok a, s)

module _ {S E : Type 0} where
  -- `if (!test) throw error`.
  abbrev pub require : Bool → E → Action S E (Unit {0})
  require true e s = (ok tt, s)
  require false e s = (err e, s)

  abbrev pub get_state : Action S E S
  get_state s = (ok s, s)

module _ {S E A B : Type 0} where
  abbrev pub continue : Result E A × S → (A → Action S E B) → Result E B × S
  continue (ok a, s) f = f a s
  continue (err e, s) f = (err e, s)

  infixl 5 ◌>>=◌ ◌>>◌
  abbrev pub ◌>>=◌ : Action S E A → (A → Action S E B) → Action S E B
  ◌>>=◌ m f s = continue (m s) f

  abbrev pub ◌>>◌ : Action S E A → Action S E B → Action S E B
  m >> k = m >>= λ _. k

module _ {S E A B : Type 0} (P : S → Type 0) where
  -- What holds of the state after the first part, and of it after the rest, holds after both.
  pub continue_state :
      (r : Result E A × S) (f : A → Action S E B)
      → P r.1
      → ((a : A) → r.0 ≡ ok a → P (f a r.1).1)
      → P (continue r f).1
  continue_state (ok a, s) f h k = k a refl
  continue_state (err e, s) f h k = h
