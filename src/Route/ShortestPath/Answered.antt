-- ===== src/Route/ShortestPath/Answered.antt =====
-- What `findShortestPathWithTransfers` answers.
use metro_backend.Prelude.{
  ℕ, ◌+◌, ◌*◌, ◌≤◌, ◌≡◌, ◌≢◌, ◌⊎◌, inl, inr, refl, sym, subst, true, false, not, ◌&&◌, ◌||◌, String,
  str_eq, some, List, [], ◌∷◌, arith, Bool-cases, length,
}
use metro_backend.Route.{RouteStation}
use metro_backend.Route.Segments.{Node, collapse, cleaned, transfers}
use metro_backend.Route.Transfers.{OnRoutes, transfers-cleaned}
use metro_backend.Route.Queue.{Entry}
use metro_backend.Route.Heap.Instance.{min_heap}
use metro_backend.Route.Search.{
  start_of, Search, Outcome, out_of_fuel, unreachable, arrived, search, begin,
}
use metro_backend.Route.Search.Shortest.{IsRight, begin-IsRight}
use metro_backend.Route.Search.Fuel.{is_done, begin-is_done}
use metro_backend.Route.Search.Arrival.{TracesArrival, begin-TracesArrival}
use metro_backend.Route.Path.{path_to-IsPath, IsPath, Rides-cost}
use metro_backend.Route.Graph.{edges_of, has, add_edges, by_route, links_of, links, neighbors_of}
use metro_backend.Route.ShortestPath.Walks.{WalkOn, states_closed, walk-isolated}
use metro_backend.Route.ShortestPath.{
  PathFound, Result, found, no_path, ids_required, endless, states, enough_fuel, found_at,
  answer_of, find_in, find_shortest_path,
}

module _ (rows : List RouteStation) (origin destination : String) (penalty : ℕ) where
  outcome : Outcome min_heap
  outcome =
      search min_heap (edges_of (neighbors_of rows)) penalty (enough_fuel rows origin) destination
        (begin min_heap (edges_of (neighbors_of rows)) penalty origin)

  outcome-is_done : is_done outcome ≡ true
  unfolding outcome
  outcome-is_done =
      begin-is_done min_heap (edges_of (neighbors_of rows)) penalty origin destination
        (states rows origin) (states_closed rows origin) (enough_fuel rows origin) (inl refl)
        (omega arith)

  outcome-IsRight :
      IsRight min_heap (edges_of (neighbors_of rows)) penalty origin destination outcome
  unfolding outcome
  outcome-IsRight =
      begin-IsRight min_heap (edges_of (neighbors_of rows)) penalty origin destination
        (enough_fuel rows origin)

  outcome-TracesArrival :
      TracesArrival min_heap
        (edges_of (neighbors_of rows))
        penalty
        origin
        destination
        (states rows origin)
        (states_closed rows origin)
        outcome
  unfolding outcome
  outcome-TracesArrival =
      begin-TracesArrival min_heap (edges_of (neighbors_of rows)) penalty origin destination
        (states rows origin) (states_closed rows origin) (enough_fuel rows origin) (inl refl)

  -- How the function answers: with what the search finds, or with nothing.
  data HowAnswered : Result → Type 0 where
    no_ids : str_eq origin "" || str_eq destination "" ≡ true → HowAnswered ids_required
    isolated :
        has (neighbors_of rows origin) && has (neighbors_of rows destination) ≡ false
        → HowAnswered no_path
    searched : HowAnswered (answer_of outcome)

in_rows :
    (rows : List RouteStation) (origin destination : String) (penalty : ℕ)
    → HowAnswered rows origin destination penalty (find_in rows origin destination penalty)
unfolding find_in outcome neighbors_of links by_route links_of add_edges
in_rows [] origin destination penalty = isolated refl
in_rows (row ∷ rest) origin destination penalty =
    elim (Bool-cases (
      not (has (neighbors_of (row ∷ rest) origin))
      || not (has (neighbors_of (row ∷ rest) destination)))) [
        | inl apart ↦ rw apart (isolated (ground (arith, apart)))
        | inr joined ↦ rw joined searched
      ]

module _ (rows : List RouteStation) (origin destination : String) (penalty : ℕ) where
  how_answered :
      HowAnswered rows origin destination penalty
        (find_shortest_path rows origin destination penalty)
  unfolding find_shortest_path
  how_answered = elim (Bool-cases (str_eq origin "" || str_eq destination "")) [
    | inl missing ↦ rw missing (no_ids missing)
    | inr given ↦ rw given (in_rows rows origin destination penalty)
  ]

  -- The path that is found.
  pub record IsShortestPath (a : PathFound) : Type 0 where
    pub goal : Node
    pub cost : ℕ
    pub arrives : str_eq goal.station_id destination ≡ true
    pub total : a.total_cost ≡ some cost
    pub path : IsPath min_heap (edges_of (neighbors_of rows)) penalty origin goal cost a.path
    pub weight : cost + 1 ≡ length a.path + penalty * a.transfers
    pub least :
        (k : Node) (c : ℕ)
        → WalkOn rows penalty origin k c
        → str_eq k.station_id destination ≡ true
        → cost ≤ c
    pub pieces : (a.path ≡ start_of origin ∷ []) ⊎ (length a.segments ≡ a.transfers + 1)

  answer_of-ends : (o : Outcome min_heap) → is_done o ≡ true → answer_of o ≢ endless
  answer_of-ends out_of_fuel d h = ground (arith, d)
  answer_of-ends unreachable d h = cc
  answer_of-ends (arrived e s) d h = cc

  answer_of-found :
      (o : Outcome min_heap) (k : Node) (c : ℕ)
      → is_done o ≡ true
      → IsRight min_heap (edges_of (neighbors_of rows)) penalty origin destination o
      → WalkOn rows penalty origin k c
      → str_eq k.station_id destination ≡ true
      → (a : PathFound) × (answer_of o ≡ found a)
  answer_of-found out_of_fuel k c d right w there = ground (arith, d)
  answer_of-found unreachable k c d right w there = ground (arith, right k c w, there)
  answer_of-found (arrived e s) k c d right w there = (_, refl)

  arrived-IsShortestPath :
      (e : Entry) (s : Search min_heap)
      → IsRight min_heap (edges_of (neighbors_of rows)) penalty origin destination (arrived e s)
      → TracesArrival min_heap
          (edges_of (neighbors_of rows))
          penalty
          origin
          destination
          (states rows origin)
          (states_closed rows origin)
          (arrived e s)
      → IsShortestPath (found_at e s)
  arrived-IsShortestPath e s (w, (there, least)) t =
      let p =
        path_to-IsPath min_heap (edges_of (neighbors_of rows)) penalty origin s (e.dist + 1) e.node
          e.dist t.traces t.dist (omega arith) in
      let (cost, routes) =
        Rides-cost min_heap (edges_of (neighbors_of rows)) penalty (start_of origin) p.rest e.dist
          p.rides in
      record {
        goal = e.node;
        cost = e.dist;
        arrives = there;
        total = t.dist;
        path = p;
        weight = rw p.from_origin (omega (arith, cost));
        least = least;
        pieces = rw p.from_origin (pieces_of p.rest routes);
      }
    where
      pieces_of :
          (rest : List Node)
          → OnRoutes rest
          → (◌≡◌ {A = List Node} (start_of origin ∷ rest) (start_of origin ∷ []))
            ⊎ (length (cleaned (collapse [] (start_of origin ∷ rest)))
                ≡ transfers (start_of origin ∷ rest) + 1)
      pieces_of [] r = inl refl
      pieces_of (n ∷ rest) r = inr (sym (transfers-cleaned (start_of origin) n rest refl r))

  found_eq : {a b : PathFound} → found a ≡ found b → a ≡ b
  found_eq h = cc

  answer_of-IsShortestPath :
      (o : Outcome min_heap)
      → IsRight min_heap (edges_of (neighbors_of rows)) penalty origin destination o
      → TracesArrival min_heap
          (edges_of (neighbors_of rows))
          penalty
          origin
          destination
          (states rows origin)
          (states_closed rows origin)
          o
      → (a : PathFound) → answer_of o ≡ found a
      → IsShortestPath a
  answer_of-IsShortestPath out_of_fuel right traces a h = cc
  answer_of-IsShortestPath unreachable right traces a h = cc
  answer_of-IsShortestPath (arrived e s) right traces a h =
      subst IsShortestPath (found_eq h) (arrived-IsShortestPath e s right traces)

  -- The function answers, whatever the rows: the search does not run on.
  pub find_shortest_path-ends : find_shortest_path rows origin destination penalty ≢ endless
  find_shortest_path-ends h = go (find_shortest_path rows origin destination penalty) how_answered h
    where
      go : (r : Result) → HowAnswered rows origin destination penalty r → r ≢ endless
      go ids_required (no_ids m) h = cc
      go no_path (isolated m) h = cc
      go _ searched h =
          answer_of-ends (outcome rows origin destination penalty)
            (outcome-is_done rows origin destination penalty) h

  -- A path that is found leads from the origin to the destination along the graph of the rows, its
  -- cost is its number of edges and the penalty for each of its transfers, no walk to the
  -- destination costs less, and its segments are one more than its transfers unless it stays where it begins.
  pub find_shortest_path-IsShortestPath :
      (a : PathFound)
      → find_shortest_path rows origin destination penalty ≡ found a
      → IsShortestPath a
  find_shortest_path-IsShortestPath a h =
      go (find_shortest_path rows origin destination penalty) how_answered h
    where
      go :
          (r : Result)
          → HowAnswered rows origin destination penalty r
          → r ≡ found a
          → IsShortestPath a
      go ids_required (no_ids m) h = cc
      go no_path (isolated m) h = cc
      go _ searched h =
          answer_of-IsShortestPath (outcome rows origin destination penalty)
            (outcome-IsRight rows origin destination penalty)
            (outcome-TracesArrival rows origin destination penalty) a h

  -- Where both ids are given and differ, and a walk leads from the origin to the destination, a
  -- path is found.
  pub find_shortest_path-finds :
      (k : Node) (c : ℕ)
      → str_eq origin "" || str_eq destination "" ≡ false
      → str_eq origin destination ≡ false
      → WalkOn rows penalty origin k c
      → str_eq k.station_id destination ≡ true
      → (a : PathFound) × (find_shortest_path rows origin destination penalty ≡ found a)
  find_shortest_path-finds k c given other w there =
      go (find_shortest_path rows origin destination penalty) how_answered
    where
      go :
          (r : Result)
          → HowAnswered rows origin destination penalty r
          → (a : PathFound) × (r ≡ found a)
      go ids_required (no_ids missing) = absurd (ground (arith, missing, given))
      go no_path (isolated apart) =
          absurd
            (ground (arith, walk-isolated rows origin destination penalty k c apart w other, there))
      go _ searched =
          answer_of-found (outcome rows origin destination penalty) k c
            (outcome-is_done rows origin destination penalty)
            (outcome-IsRight rows origin destination penalty) w there
