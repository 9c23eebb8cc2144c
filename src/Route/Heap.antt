-- ===== src/Route/Heap.antt =====
-- `MinHeap` of `findShortestPathWithTransfers`: a binary heap in an array. `Math.floor` of a half is
-- the quotient. A loop's fuel is the depth that it can reach at most.
pub mod Array
pub mod Order
pub mod Content
pub mod Instance
use metro_backend.Prelude.{
  ℕ, zero, suc, ◌+◌, ◌-◌, ◌*◌, ◌/◌, ◌≡◌, Bool, true, false, ◌&&◌, Option, none, some, List, [], ◌∷◌,
  ◌++◌, ltb, leb, ◌==◌, length, get_or, take, if◌then◌else◌,
}
use metro_backend.Route.Segments.{Node}
use metro_backend.Route.Queue.{Entry}

-- What a read out of range gives: no loop reads it.
abbrev pub nothing : Entry
nothing = record { node = record { station_id = ""; route_id = none }; dist = 0 }

abbrev pub at : List Entry → ℕ → Entry
at a i = get_or a i nothing

abbrev pub put : List Entry → ℕ → Entry → List Entry
put [] i e = []
put (x ∷ a) zero e = e ∷ a
put (x ∷ a) (suc i) e = x ∷ put a i e

-- `[arr[i], arr[j]] = [arr[j], arr[i]]`.
unfoldable pub swap : List Entry → ℕ → ℕ → List Entry
swap a i j = put (put a i (at a j)) j (at a i)

abbrev pub parent : ℕ → ℕ
parent i = (i - 1) / 2

-- `#up`.
unfoldable pub up : ℕ → List Entry → ℕ → List Entry
up zero a i = a
up (suc fuel) a i =
    let rest = up fuel (swap a (parent i) i) (parent i) in
    if i == 0 then a else if leb (at a (parent i)).dist (at a i).dist then a else rest

-- The first of two places, if the second is out of range or holds no smaller distance.
unfoldable pub smaller : List Entry → ℕ → ℕ → ℕ
smaller a s c = if ltb c (length a) && ltb (at a c).dist (at a s).dist then c else s

unfoldable pub smallest : List Entry → ℕ → ℕ
smallest a i = smaller a (smaller a i (2 * i + 1)) (2 * i + 2)

-- `#down`.
unfoldable pub down : ℕ → List Entry → ℕ → List Entry
down zero a i = a
down (suc fuel) a i =
    let s = smallest a i in let rest = down fuel (swap a s i) s in if s == i then a else rest

unfoldable pub push : Entry → List Entry → List Entry
push e a = up (length a) (a ++ e ∷ []) (length a)

-- The array after its last entry is taken off and put in the first place.
unfoldable pub refill : Entry → List Entry → List Entry
refill last [] = []
refill last (x ∷ a) = down (length (x ∷ a)) (last ∷ a) 0

unfoldable pub pop : List Entry → Option (Entry × List Entry)
pop [] = none
pop (x ∷ a) = some (x, refill (at (x ∷ a) (length a)) (take (length a) (x ∷ a)))
