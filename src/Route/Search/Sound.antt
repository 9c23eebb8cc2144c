-- ===== src/Route/Search/Sound.antt =====
-- Walks through the network, and the invariant of the search.
use metro_backend.Prelude.{ℕ, ◌+◌, ◌≤◌, ◌≡◌, ◌⊎◌, false, String, str_eq, some, List, [], ◌∷◌}
use metro_backend.Route.Segments.{Node}
use metro_backend.Route.Queue.{Entry, PriorityQueue}
use metro_backend.Route.Search.{Edge, target, start_of, Search, cost}

-- The edge is one of these.
abbrev pub Among : Edge → List Edge → Type 0
Among e [] = ⊥
Among e (x ∷ xs) = (e ≡ x) ⊎ Among e xs

module _ (queue : PriorityQueue) (edges : String → List Edge) (penalty : ℕ) where
  -- A walk from the origin, with its cost.
  pub data Walk (origin : String) : Node → ℕ → Type 0 where
    stand : Walk origin (start_of origin) 0
    ride :
        (k : Node) (c : ℕ) (e : Edge)
        → Walk origin k c
        → Among e (edges k.station_id)
        → Walk origin (target e) (c + cost queue edges penalty k e)

  -- The distance of the state over the edge is at most that of the edge's start and its weight.
  pub record IsRelaxed (s : Search queue) (k : Node) (d : ℕ) (e : Edge) : Type 0 where
    pub over : ℕ
    pub dist : s.dist (target e) ≡ some over
    pub le : over ≤ d + cost queue edges penalty k e

  -- Distances are those of walks. A state whose distance no entry has is settled: its edges are
  -- relaxed, but for those of the current state that wait for it, and it is not at the destination.
  pub record IsSound (origin destination : String) (cur : Node) (todo : List Edge)
      (s : Search queue) : Type 0 where
    pub valid : queue.IsValid s.waiting
    pub once : (x : Entry) → queue.count x s.waiting ≤ 1
    pub walk : (k : Node) (d : ℕ) → s.dist k ≡ some d → Walk origin k d
    pub entry :
        (x : Entry)
        → 1 ≤ queue.count x s.waiting
        → (d : ℕ) × ((s.dist x.node ≡ some d) × (d ≤ x.dist))
    pub source : s.dist (start_of origin) ≡ some 0
    pub settled :
        (k : Node) (d : ℕ) (e : Edge)
        → s.dist k ≡ some d
        → queue.count (record { node = k; dist = d }) s.waiting ≡ 0
        → Among e (edges k.station_id)
        → IsRelaxed s k d e ⊎ ((k ≡ cur) × Among e todo)
    pub elsewhere :
        (k : Node) (d : ℕ)
        → s.dist k ≡ some d
        → queue.count (record { node = k; dist = d }) s.waiting ≡ 0
        → str_eq k.station_id destination ≡ false
