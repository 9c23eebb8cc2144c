-- ===== src/Route/Queue.antt =====
-- What `findShortestPathWithTransfers` relies on in its priority queue.
use metro_backend.Prelude.{
  ℕ, ◌+◌, ◌≤◌, ◌≡◌, ◌↔◌, Bool, true, false, ◌&&◌, ◌==◌, String, str_eq, eq_iff, Option, none, some,
  arith,
}
use metro_backend.Route.Segments.{Node, same_route}

-- An entry: a state of the search and its distance when it was pushed.
pub record Entry : Type 0 where
  pub node : Node
  pub dist : ℕ

-- Equality of the keys of two states, where no id is empty, is `-` or holds a `|`.
abbrev pub same_node : Node → Node → Bool
same_node a b = str_eq a.station_id b.station_id && same_route a.route_id b.route_id

abbrev pub same_entry : Entry → Entry → Bool
same_entry a b = a.dist == b.dist && same_node a.node b.node

pub same_route_iff : (a b : Option String) → (same_route a b ≡ true) ↔ (a ≡ b)
same_route_iff none none = ground arith
same_route_iff none (some b) = ground arith
same_route_iff (some a) none = ground arith
same_route_iff (some a) (some b) = ground (arith, eq_iff a b)

pub same_node_iff : (a b : Node) → (same_node a b ≡ true) ↔ (a ≡ b)
same_node_iff a b =
    ground (arith, eq_iff a.station_id b.station_id, same_route_iff a.route_id b.route_id)

pub same_entry_iff : (a b : Entry) → (same_entry a b ≡ true) ↔ (a ≡ b)
same_entry_iff a b = ground (arith, same_node_iff a.node b.node)

abbrev pub bit : Bool → ℕ
bit true = 1
bit false = 0

-- A queue of entries: how often it has each, how many it has, and a `pop` that takes one with the
-- least distance.
pub record PriorityQueue : Type 1 where
  pub Q : Type 0
  pub IsValid : Q → Type 0
  pub empty : Q
  pub push : Entry → Q → Q
  pub pop : Q → Option (Entry × Q)
  pub count : Entry → Q → ℕ
  pub size : Q → ℕ
  pub empty-IsValid : IsValid empty
  pub count-empty : (x : Entry) → count x empty ≡ 0
  pub size-empty : size empty ≡ 0
  pub push-IsValid : (e : Entry) (q : Q) → IsValid q → IsValid (push e q)
  pub count-push :
      (x e : Entry) (q : Q) → IsValid q → count x (push e q) ≡ count x q + bit (same_entry e x)
  pub size-push : (e : Entry) (q : Q) → size (push e q) ≡ size q + 1
  pub pop_none : (x : Entry) (q : Q) → pop q ≡ none → count x q ≡ 0
  pub pop-IsValid : (e : Entry) (q r : Q) → IsValid q → pop q ≡ some (e, r) → IsValid r
  pub count-pop :
      (x e : Entry) (q r : Q)
      → IsValid q
      → pop q ≡ some (e, r)
      → count x q ≡ count x r + bit (same_entry e x)
  pub size-pop : (e : Entry) (q r : Q) → pop q ≡ some (e, r) → size q ≡ size r + 1
  pub pop-le :
      (x e : Entry) (q r : Q) → IsValid q → pop q ≡ some (e, r) → 1 ≤ count x q → e.dist ≤ x.dist
