-- ===== src/Sepay/Content/Match.antt =====
-- What the atoms match, and where a match can begin.
use metro_backend.Prelude.{
  ℕ, ◌≡◌, refl, true, false, ◌==◌, none, some, List, [], ◌∷◌, ◌++◌, Text, All,
}
use metro_backend.Sepay.Content.{
  Atom, lower, matches, match_front, words, group, match_at, or_else, find_match,
}

-- The whole text, one character for each atom.
abbrev pub Matches : Atom → ℕ → Type 0
Matches a c = matches a c ≡ true

abbrev pub Fits : List Atom → Text → Type 0
Fits [] [] = Unit
Fits [] (c ∷ cs) = ⊥
Fits (a ∷ atoms) [] = ⊥
Fits (a ∷ atoms) (c ∷ cs) = (matches a c ≡ true) × Fits atoms cs

pub match_front-append :
    (atoms : List Atom) (x y : Text) → Fits atoms x → match_front atoms (x ++ y) ≡ some (x, y)
unfolding match_front
match_front-append [] [] y h = refl
match_front-append [] (c ∷ x) y h = elim h [ ]
match_front-append (a ∷ atoms) [] y h = elim h [ ]
match_front-append (a ∷ atoms) (c ∷ x) y h = rw (match_front-append atoms x y h.1, h.0) refl

-- The letter of the words by which every match begins.
abbrev pub NotFirst : ℕ → Type 0
NotFirst c = (b'p' == lower c) ≡ false

pub match_at-none : (id : List Atom) (c : ℕ) (t : Text) → NotFirst c → match_at id (c ∷ t) ≡ none
unfolding match_at match_front
match_at-none id c t h = rw h refl

pub find_match-append :
    (id : List Atom) (x y : Text) → All NotFirst x → find_match id (x ++ y) ≡ find_match id y
unfolding find_match
find_match-append id [] y h = refl
find_match-append id (c ∷ x) y h =
    rw (match_at-none id c (x ++ y) h.0) (find_match-append id x y h.1)

pub find_match-words :
    (id : List Atom) (y : Text)
    → find_match id (words ++ y) ≡ or_else (group (match_front id y)) (find_match id y)
unfolding find_match match_at match_front
find_match-words id y = refl
