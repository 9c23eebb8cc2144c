-- ===== src/Prelude/Trim.antt =====
-- `trim` of a string.
use Prim.Native.Nat.{ℕ}
use mathlib.Core.Path.{◌≡◌, refl}
use mathlib.Core.Bool.{Bool, false, ◌&&◌, ◌||◌}
use mathlib.Core.List.{[], ◌∷◌, ◌++◌}
use native.Mathlib.Omega.{arith}
use metro_backend.Prelude.Tests.{leb, ◌==◌, if◌then◌else◌}
use metro_backend.Prelude.Lists.{any, All}
use metro_backend.Prelude.Characters.{Text}

-- White space and line ends.
abbrev pub is_space : ℕ → Bool
is_space c =
    leb 9 c && leb c 13
    || (leb 8192 c && leb c 8202
        || any (λ d. c == d) (32 ∷ 160 ∷ 5760 ∷ 8232 ∷ 8233 ∷ 8239 ∷ 8287 ∷ 12288 ∷ 65279 ∷ []))

unfoldable pub trim_start : Text → Text
trim_start [] = []
trim_start (c ∷ cs) = let rest = trim_start cs in if is_space c then rest else c ∷ cs

-- A character before what is left of the end: white space stays if something follows it.
abbrev pub before_end : ℕ → Text → Text
before_end c [] = if is_space c then [] else c ∷ []
before_end c (d ∷ ds) = c ∷ d ∷ ds

unfoldable pub trim_end : Text → Text
trim_end [] = []
trim_end (c ∷ cs) = before_end c (trim_end cs)

unfoldable pub trim : Text → Text
unfolding trim_start trim_end
trim t = trim_end (trim_start t)

abbrev pub NotSpace : ℕ → Type 0
NotSpace c = is_space c ≡ false

before_end-cons : (c : ℕ) (r : Text) → NotSpace c → before_end c r ≡ c ∷ r
before_end-cons c [] h = rw h
before_end-cons c (d ∷ ds) h = refl

pub trim_end-append : (x y : Text) → All NotSpace x → trim_end (x ++ y) ≡ x ++ trim_end y
unfolding trim_end
trim_end-append [] y h = refl
trim_end-append (c ∷ x) y h = rw (trim_end-append x y h.1) (before_end-cons c (x ++ trim_end y) h.0)

-- White space before something that stays, stays.
pub trim_end-append_some :
    (x y : Text) (c : ℕ) (z : Text) → trim_end y ≡ c ∷ z → trim_end (x ++ y) ≡ x ++ c ∷ z
unfolding trim_end
trim_end-append_some [] y c z h = h
trim_end-append_some (a ∷ []) y c z h = rw h
trim_end-append_some (a ∷ b ∷ x) y c z h = rw (trim_end-append_some (b ∷ x) y c z h)

-- What is dropped at the front is white space, up to the first character that is none.
pub trim_start-append :
    (x : Text) (c : ℕ) (y : Text) → NotSpace c → trim_start (x ++ c ∷ y) ≡ trim_start x ++ c ∷ y
unfolding trim_start
trim_start-append [] c y h = rw h
trim_start-append (a ∷ x) c y h = ground (arith, trim_start-append x c y h)

pub trim_start-All : (P : ℕ → Type 0) (x : Text) → All P x → All P (trim_start x)
unfolding trim_start
trim_start-All P [] h = tt
trim_start-All P (a ∷ x) h = ground (arith, trim_start-All P x h.1)
