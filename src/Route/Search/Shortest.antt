-- ===== src/Route/Search/Shortest.antt =====
-- What the search answers: a shortest walk to the destination, or that there is none.
use metro_backend.Prelude.{
  ℕ, zero, suc, ◌+◌, ◌≤◌, ◌≡◌, inl, inr, refl, subst, true, false, ◌&&◌, String, str_eq, none, some,
  List, [], arith,
}
use metro_backend.Route.Segments.{Node}
use metro_backend.Route.Queue.{Entry, PriorityQueue, same_node_iff, same_node, same_entry}
use metro_backend.Route.Search.{
  Edge, target, start_of, Search, Outcome, out_of_fuel, unreachable, arrived, is_current, cost,
  search, begin,
}
use metro_backend.Route.Search.Sound.{Walk, stand, ride, IsSound}
use metro_backend.Route.Search.Outcomes.{outcome_of-cases}
use metro_backend.Route.Search.Visit.{visit-IsSound}

module _ (queue : PriorityQueue) (edges : String → List Edge) (penalty : ℕ)
    (origin destination : String) where
  -- What an outcome says about the walks from the origin.
  abbrev pub IsRight : Outcome queue → Type 0
  IsRight out_of_fuel = Unit
  IsRight unreachable =
      (k : Node) (c : ℕ)
      → Walk queue edges penalty origin k c
      → str_eq k.station_id destination ≡ false
  IsRight (arrived e s) =
      Walk queue edges penalty origin e.node e.dist
      × ((str_eq e.node.station_id destination ≡ true)
          × ((k : Node) (c : ℕ)
              → Walk queue edges penalty origin k c
              → str_eq k.station_id destination ≡ true
              → e.dist ≤ c))

  pub begin-IsSound :
      IsSound queue edges penalty origin destination
        (start_of origin)
        []
        (begin queue edges penalty origin)
  begin-IsSound =
      let first : Entry = record { node = start_of origin; dist = 0 } in
      let counts = λ (x : Entry). queue.count-push x first queue.empty queue.empty-IsValid in
      record {
        valid = queue.push-IsValid first queue.empty queue.empty-IsValid;
        once = λ x. ground (arith, counts x, queue.count-empty x);
        walk = λ k d g.
            let same : same_node (start_of origin) k ≡ true = ground (arith, g) in
            let num : 0 ≡ d = ground (arith, g, same) in
            subst (λ k. Walk queue edges penalty origin k d)
              ((same_node_iff (start_of origin) k).0 same)
              (subst (λ n. Walk queue edges penalty origin (start_of origin) n) num stand);
        entry = λ x n.
            let same : same_entry first x ≡ true =
              ground (arith, counts x, queue.count-empty x, n) in
            (0, (ground (arith, same), omega arith));
        source = ground (arith, same_node_iff (start_of origin) (start_of origin));
        settled =
            λ k d e g n m. absurd (ground (arith, g, n, counts (record { node = k; dist = d })));
        elsewhere =
            λ k d g n. absurd (ground (arith, g, n, counts (record { node = k; dist = d })));
      }

  module _ (a : Node) (s : Search queue)
      (v : IsSound queue edges penalty origin destination a [] s) where
    -- A walk's cost is covered by an entry that waits, or by the settled distance of its end.
    data Covered (k : Node) (c : ℕ) : Type 0 where
      by_entry : (x : Entry) → 1 ≤ queue.count x s.waiting → x.dist ≤ c → Covered k c
      by_distance :
          (d : ℕ)
          → s.dist k ≡ some d
          → queue.count (record { node = k; dist = d }) s.waiting ≡ 0
          → d ≤ c
          → Covered k c

    cover_at : (k : Node) (d c : ℕ) → s.dist k ≡ some d → d ≤ c → Covered k c
    cover_at k d c g l = go (queue.count (record { node = k; dist = d }) s.waiting) refl
      where
        go : (n : ℕ) → queue.count (record { node = k; dist = d }) s.waiting ≡ n → Covered k c
        go zero e = by_distance d g e l
        go (suc n) e = by_entry (record { node = k; dist = d }) (omega (arith, e)) l

    covered : (k : Node) (c : ℕ) → Walk queue edges penalty origin k c → Covered k c
    covered k c stand = cover_at (start_of origin) 0 0 v.source (omega arith)
    covered _ _ (ride k c e w m) = go (covered k c w)
      where
        go : Covered k c → Covered (target e) (c + cost queue edges penalty k e)
        go (by_entry x n l) = by_entry x n (omega (arith, l))
        go (by_distance d g n l) = elim (v.settled k d e g n m) [
          | inl r ↦ cover_at (target e) r.over _ r.dist (omega (arith, r.le, l))
          | inr (eq, never) ↦ absurd never
        ]

    none-IsRight : queue.pop s.waiting ≡ none → IsRight unreachable
    none-IsRight empty k c w = go (covered k c w)
      where
        go : Covered k c → str_eq k.station_id destination ≡ false
        go (by_entry x n l) = absurd (omega (arith, n, queue.pop_none x s.waiting empty))
        go (by_distance d g n l) = v.elsewhere k d g n

    arrived-IsRight :
        (e : Entry) (rest : queue.Q)
        → queue.pop s.waiting ≡ some (e, rest)
        → is_current (s.dist e.node) e.dist && str_eq e.node.station_id destination ≡ true
        → IsRight (arrived e (record s { waiting = rest }))
    arrived-IsRight e rest popped on = (
      v.walk e.node e.dist (ground (arith, on)),
      (ground (arith, on), λ k c w there. go k c there (covered k c w)),
    )
      where
        go : (k : Node) (c : ℕ) → str_eq k.station_id destination ≡ true → Covered k c → e.dist ≤ c
        go k c there (by_entry x n l) =
            omega (arith, queue.pop-le x e s.waiting rest v.valid popped n, l)
        go k c there (by_distance d g n l) = ground (arith, there, v.elsewhere k d g n)

  search-IsRight :
      (fuel : ℕ) (a : Node) (s : Search queue)
      → IsSound queue edges penalty origin destination a [] s
      → IsRight (search queue edges penalty fuel destination s)
  unfolding search
  search-IsRight zero a s v = tt
  search-IsRight (suc fuel) a s v =
      outcome_of-cases queue edges penalty destination s IsRight _ (none-IsRight a s v)
        (arrived-IsRight a s v)
        λ cur rest popped on.
          search-IsRight fuel a _
            (visit-IsSound queue edges penalty origin destination a s cur rest v popped on)

  -- A search that ends from the origin alone is right: where it arrives, it arrives at the
  -- destination with the cost of a walk, and no walk to the destination costs less; where it finds
  -- nothing, no walk leads to the destination.
  pub begin-IsRight :
      (fuel : ℕ)
      → IsRight (search queue edges penalty fuel destination (begin queue edges penalty origin))
  begin-IsRight fuel =
      search-IsRight fuel (start_of origin) (begin queue edges penalty origin) begin-IsSound
