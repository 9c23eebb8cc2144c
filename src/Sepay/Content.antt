-- ===== src/Sepay/Content.antt =====
-- The ticket that the content of a bank transfer names: `normalizeSepayBankPayload` of
-- payment-service/src/events/hook_consumers/sepay.hook.consumer.js. A regular expression here is a
-- list of atoms, each for one character, so that a match has one way to go.
pub mod Match
pub mod Named
pub mod Dashes
use metro_backend.Prelude.{
  ℕ, ◌+◌, Bool, ◌&&◌, ◌||◌, ◌==◌, Option, none, some, List, [], ◌∷◌, ◌++◌, map, if◌then◌else◌, leb,
  is_digit, Text, codes, replicate, take, drop, ◌-◌,
}
use metro_backend.Prelude.Trim.{trim}

-- The flag `i` compares letters by their lower case; characters beyond ASCII stay as they are.
abbrev pub lower : ℕ → ℕ
lower c = if leb b'A' c && leb c b'Z' then c + 32 else c

-- `[a-f0-9]`, and one character for itself.
pub data Atom : Type 0 where
  hex : Atom
  letter : ℕ → Atom

unfoldable pub is_hex : ℕ → Bool
is_hex c = is_digit c || leb b'a' (lower c) && leb (lower c) b'f'

abbrev pub matches : Atom → ℕ → Bool
matches hex c = is_hex c
matches (letter a) c = lower a == lower c

abbrev pub captured : ℕ → Option (Text × Text) → Option (Text × Text)
captured c none = none
captured c (some (found, rest)) = some (c ∷ found, rest)

-- The text that the atoms match at the front, and what is left.
unfoldable pub match_front : List Atom → Text → Option (Text × Text)
match_front [] t = some ([], t)
match_front (a ∷ atoms) [] = none
match_front (a ∷ atoms) (c ∷ cs) =
    let rest = captured c (match_front atoms cs) in if matches a c then rest else none

-- `Payment for ticket `.
abbrev pub words : Text
words = codes "Payment for ticket "

abbrev pub hexes : ℕ → List Atom
hexes n = replicate n hex

-- `[a-f0-9]{8}-[a-f0-9]{4}-[a-f0-9]{4}-[a-f0-9]{4}-[a-f0-9]{12}`.
abbrev pub uuid : List Atom
uuid =
    hexes 8
    ++ (letter b'-' ∷ hexes 4
        ++ (letter b'-' ∷ hexes 4 ++ (letter b'-' ∷ hexes 4 ++ (letter b'-' ∷ hexes 12))))

-- `[a-f0-9]{32}`.
abbrev pub plain : List Atom
plain = hexes 32

abbrev pub group : Option (Text × Text) → Option Text
group none = none
group (some (found, _)) = some found

abbrev pub after_words : List Atom → Option (Text × Text) → Option Text
after_words id none = none
after_words id (some (_, rest)) = group (match_front id rest)

unfoldable pub match_at : List Atom → Text → Option Text
match_at id t = after_words id (match_front (map letter words) t)

abbrev pub or_else : {A : Type 0} → Option A → Option A → Option A
or_else none other = other
or_else (some a) other = some a

-- The first place at which the words and the id match: the group of the match.
unfoldable pub find_match : List Atom → Text → Option Text
find_match id [] = match_at id []
find_match id (c ∷ cs) = or_else (match_at id (c ∷ cs)) (find_match id cs)

unfoldable pub ticket_id_in : Text → Option Text
ticket_id_in content = or_else (find_match uuid (trim content)) (find_match plain (trim content))

-- `substring`.
abbrev pub substring : ℕ → ℕ → Text → Text
substring start end t = take (end - start) (drop start t)

-- The template that puts the dashes of a UUID between the digits.
unfoldable pub uuid_format : Text → Text
uuid_format t =
    substring 0 8 t
    ++ (b'-' ∷ substring 8 12 t
        ++ (b'-' ∷ substring 12 16 t ++ (b'-' ∷ substring 16 20 t ++ b'-' ∷ substring 20 32 t)))
