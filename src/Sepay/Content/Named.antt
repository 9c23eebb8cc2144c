-- ===== src/Sepay/Content/Named.antt =====
-- The description that SepayPaymentStrategy.js writes into a payment order, read back from the
-- content of the transfer.
use metro_backend.Prelude.{
  ℕ, zero, suc, ◌≡◌, refl, subst, ap, codes, ◌∙◌, true, false, none, some, List, [], ◌∷◌, ◌++◌,
  Text, All, arith,
}
use mathlib.Core.List.{append-nil}
use metro_backend.Prelude.Trim.{
  NotSpace, trim, trim_start, trim_end, trim_end-append, trim_end-append_some, trim_start-append,
  trim_start-All,
}
use metro_backend.Sepay.Content.{
  Atom, hex, letter, hexes, is_hex, matches, words, uuid, plain, match_front, find_match, match_at,
  ticket_id_in,
}
use metro_backend.Sepay.Content.Match.{
  match_at-none, Matches, Fits, match_front-append, NotFirst, find_match-append, find_match-words,
}

-- Hex digits and dashes.
abbrev pub IsName : Atom → Type 0
IsName hex = Unit
IsName (letter a) = a ≡ b'-'

is_hex-NotSpace : (c : ℕ) → is_hex c ≡ true → NotSpace c
unfolding is_hex
is_hex-NotSpace c h = ground arith

dash-NotSpace : (a c : ℕ) → a ≡ b'-' → Matches (letter a) c → NotSpace c
dash-NotSpace a c e h = ground arith

Fits-NotSpace : (atoms : List Atom) (x : Text) → All IsName atoms → Fits atoms x → All NotSpace x
Fits-NotSpace [] [] n h = tt
Fits-NotSpace [] (c ∷ x) n h = elim h [ ]
Fits-NotSpace (a ∷ atoms) [] n h = elim h [ ]
Fits-NotSpace (hex ∷ atoms) (c ∷ x) n h = (is_hex-NotSpace c h.0, Fits-NotSpace atoms x n.1 h.1)
Fits-NotSpace (letter a ∷ atoms) (c ∷ x) n h =
    (dash-NotSpace a c n.0 h.0, Fits-NotSpace atoms x n.1 h.1)

abbrev tail_words : Text
tail_words = codes "ayment for ticket "

module _ (before : Text) (c : ℕ) (cs after : Text) (solid : All NotSpace (c ∷ cs)) where
  end_trimmed : trim_end (c ∷ cs ++ after) ≡ c ∷ cs ++ trim_end after
  end_trimmed = trim_end-append (c ∷ cs) after solid

  -- What stands before the words and after the id is all that a trim can touch.
  content-trimmed :
      trim (before ++ (words ++ (c ∷ cs ++ after)))
      ≡ trim_start before ++ (words ++ (c ∷ cs ++ trim_end after))
  unfolding trim
  content-trimmed =
      ap trim_end (trim_start-append before b'P' (tail_words ++ (c ∷ cs ++ after)) refl)
      ∙ trim_end-append_some (trim_start before) (words ++ (c ∷ cs ++ after)) b'P'
          (tail_words ++ (c ∷ cs ++ trim_end after))
          (trim_end-append_some words (c ∷ cs ++ after) c (cs ++ trim_end after) end_trimmed)

-- Of a text with no letter p before the words, the first match is the one at the words.
find_match-content :
    (id : List Atom) (before x after : Text)
    → All NotFirst before
    → Fits id x
    → find_match id (before ++ (words ++ (x ++ after))) ≡ some x
find_match-content id before x after early h =
    rw (find_match-append id before (words ++ (x ++ after)) early)
      (rw (find_match-words id (x ++ after)) (rw (match_front-append id x after h) refl))

uuid-IsName : All IsName uuid
uuid-IsName = omega arith

-- A transfer whose content has the words and an id of 36 characters with its dashes, after a text
-- with no letter p and before any text, names that id.
pub ticket_id_in-uuid :
    (before id after : Text)
    → All NotFirst before
    → Fits uuid id
    → ticket_id_in (before ++ (words ++ (id ++ after))) ≡ some id
unfolding ticket_id_in
ticket_id_in-uuid before [] after early h = elim h [ ]
ticket_id_in-uuid before (c ∷ cs) after early h =
    rw (content-trimmed before c cs after (Fits-NotSpace uuid (c ∷ cs) uuid-IsName h)) (
      rw
        (find_match-content uuid (trim_start before) (c ∷ cs) (trim_end after)
          (trim_start-All NotFirst before early) h)
        refl)

abbrev pub IsHex : ℕ → Type 0
IsHex c = is_hex c ≡ true

abbrev HasDash : List Atom → Type 0
HasDash [] = ⊥
HasDash (hex ∷ atoms) = HasDash atoms
HasDash (letter a ∷ atoms) = a ≡ b'-'

is_hex-no_dash : (a c : ℕ) → a ≡ b'-' → is_hex c ≡ true → matches (letter a) c ≡ false
unfolding is_hex
is_hex-no_dash a c e h = ground arith

is_hex-NotFirst : (c : ℕ) → is_hex c ≡ true → NotFirst c
unfolding is_hex
is_hex-NotFirst c h = ground arith

-- No dash stands in a text of hex digits.
match_front-no_dash :
    (atoms : List Atom) (x : Text) → HasDash atoms → All IsHex x → match_front atoms x ≡ none
unfolding match_front
match_front-no_dash [] x d h = elim d [ ]
match_front-no_dash (hex ∷ atoms) [] d h = refl
match_front-no_dash (letter a ∷ atoms) [] d h = refl
match_front-no_dash (hex ∷ atoms) (c ∷ x) d h = rw (h.0, match_front-no_dash atoms x d h.1) refl
match_front-no_dash (letter a ∷ atoms) (c ∷ x) d h = rw (is_hex-no_dash a c d h.0) refl

find_match-hexes : (id : List Atom) (x : Text) → HasDash id → All IsHex x → find_match id x ≡ none
unfolding find_match match_at match_front
find_match-hexes id [] d h = refl
find_match-hexes id (c ∷ x) d h =
    rw (match_at-none id c x (is_hex-NotFirst c h.0)) (find_match-hexes id x d h.1)

pub Fits-IsHex : (n : ℕ) (x : Text) → Fits (hexes n) x → All IsHex x
Fits-IsHex zero [] h = tt
Fits-IsHex zero (c ∷ x) h = elim h [ ]
Fits-IsHex (suc n) [] h = elim h [ ]
Fits-IsHex (suc n) (c ∷ x) h = (h.0, Fits-IsHex n x h.1)

plain-IsName : All IsName plain
plain-IsName = omega arith

plain_end :
    (before id : Text)
    → All NotFirst before
    → Fits plain id
    → ticket_id_in (before ++ (words ++ (id ++ []))) ≡ some id
unfolding ticket_id_in trim_end
plain_end before [] early h = elim h [ ]
plain_end before (c ∷ cs) early h =
    let hexed = Fits-IsHex 32 (c ∷ cs) h in
    let start = trim_start-All NotFirst before early in
    let no_uuid : find_match uuid (trim_start before ++ (words ++ (c ∷ cs ++ []))) ≡ none =
      find_match-append uuid (trim_start before) (words ++ (c ∷ cs ++ [])) start
      ∙ find_match-words uuid (c ∷ cs ++ [])
      ∙ rw (append-nil cs, match_front-no_dash uuid (c ∷ cs) refl hexed)
          (find_match-hexes uuid (c ∷ cs) refl hexed) in
    rw (content-trimmed before c cs [] (Fits-NotSpace plain (c ∷ cs) plain-IsName h), no_uuid)
      (find_match-content plain (trim_start before) (c ∷ cs) [] start h)

-- So does one whose content ends with the words and an id of 32 hex digits, without the dashes.
pub ticket_id_in-plain :
    (before id : Text)
    → All NotFirst before
    → Fits plain id
    → ticket_id_in (before ++ (words ++ id)) ≡ some id
ticket_id_in-plain before id early h =
    subst (λ end. ticket_id_in (before ++ (words ++ end)) ≡ some id) (append-nil id)
      (plain_end before id early h)
