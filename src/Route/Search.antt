-- ===== src/Route/Search.antt =====
-- The search of `findShortestPathWithTransfers`: Dijkstra's algorithm over the states of a station
-- and the route that led there, on a priority queue and a graph. The keys of two states are equal
-- where their stations and routes are, since no id has a `|`. The penalty of a transfer is a natural
-- number, and the weight of every edge is 1.
pub mod Sound
pub mod Relax
pub mod Visit
pub mod Shortest
pub mod Ends
pub mod Progress
pub mod Fuel
pub mod Outcomes
pub mod Trace
pub mod Arrival
use metro_backend.Prelude.{
  ℕ, zero, suc, ◌+◌, ◌≡◌, Bool, true, false, not, ◌&&◌, ◌==◌, ltb, String, str_eq, Option, none,
  some, List, [], ◌∷◌, if◌then◌else◌,
}
use metro_backend.Route.Segments.{Node, same_route, is_route}
use metro_backend.Route.Queue.{Entry, PriorityQueue, same_node}

pub record Edge : Type 0 where
  pub to : String
  pub route_id : String

-- The state to which an edge leads.
abbrev pub target : Edge → Node
target e = record { station_id = e.to; route_id = some e.route_id }

abbrev pub start_of : String → Node
start_of origin = record { station_id = origin; route_id = none }

-- The maps `dist` and `prev`, and the queue.
pub record Search (queue : PriorityQueue) : Type 0 where
  pub dist : Node → Option ℕ
  pub prev : Node → Option Node
  pub waiting : queue.Q

pub data Outcome (queue : PriorityQueue) : Type 0 where
  out_of_fuel unreachable : Outcome queue
  arrived : Entry → Search queue → Outcome queue

-- `map.set(key, value)`.
abbrev pub set : {A : Type 0} → (Node → Option A) → Node → A → Node → Option A
set map key value k = if same_node key k then some value else map k

-- `newDist < (dist.has(key) ? dist.get(key) : Infinity)`.
abbrev pub is_nearer : ℕ → Option ℕ → Bool
is_nearer d none = true
is_nearer d (some old) = ltb d old

-- `cur.dist === dist.get(curKey)`.
abbrev pub is_current : Option ℕ → ℕ → Bool
is_current none d = false
is_current (some old) d = old == d

module _ (queue : PriorityQueue) (edges : String → List Edge) (penalty : ℕ) where
  -- The weight of an edge from a state: a change between two routes costs the penalty as well.
  abbrev pub cost : Node → Edge → ℕ
  cost cur edge =
      1
      + (if is_route cur.route_id && not (same_route cur.route_id (some edge.route_id))
          then penalty
          else 0)

  unfoldable pub relax : Node → ℕ → Edge → Search queue → Search queue
  relax cur d edge s =
      let next = target edge in
      let new_dist = d + cost cur edge in
      if is_nearer new_dist (s.dist next)
      then record {
        dist = set s.dist next new_dist;
        prev = set s.prev next cur;
        waiting = queue.push (record { node = next; dist = new_dist }) s.waiting;
      }
      else s

  unfoldable pub relax_all : Node → ℕ → List Edge → Search queue → Search queue
  relax_all cur d [] s = s
  relax_all cur d (edge ∷ rest) s = relax_all cur d rest (relax cur d edge s)

  -- The search after a state is popped: a stale one is skipped, another's edges are relaxed.
  unfoldable pub visit : Entry → queue.Q → Search queue → Search queue
  visit cur rest s =
      let left = record s { waiting = rest } in
      if is_current (s.dist cur.node) cur.dist
      then relax_all cur.node cur.dist (edges cur.node.station_id) left
      else left

  -- What a pop leads to: no state is left, the destination is reached, or the search goes on.
  abbrev pub outcome_of :
      String
      → Search queue
      → (Entry → queue.Q → Outcome queue)
      → Option (Entry × queue.Q)
      → Outcome queue
  outcome_of destination s next none = unreachable
  outcome_of destination s next (some (cur, rest)) =
      if is_current (s.dist cur.node) cur.dist && str_eq cur.node.station_id destination
      then arrived cur (record s { waiting = rest })
      else next cur rest

  unfoldable pub search : ℕ → String → Search queue → Outcome queue
  search zero destination s = out_of_fuel
  search (suc fuel) destination s =
      outcome_of destination s (λ cur rest. search fuel destination (visit cur rest s))
        (queue.pop s.waiting)

  abbrev pub begin : String → Search queue
  begin origin = record {
    dist = set (λ k. none) (start_of origin) 0;
    prev = λ k. none;
    waiting = queue.push (record { node = start_of origin; dist = 0 }) queue.empty;
  }
