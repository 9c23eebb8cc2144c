-- ===== src/Route/Path.antt =====
-- The path that `findShortestPathWithTransfers` follows back along `prev`.
use metro_backend.Prelude.{
  ℕ, zero, suc, ◌+◌, ◌*◌, ◌<◌, ◌≡◌, refl, sym, ap, subst, Option, none, some, List, [], ◌∷◌,
  reverse, reverse_aux, String, arith, length,
}
use metro_backend.Route.Segments.{Node, transfers}
use metro_backend.Route.Queue.{PriorityQueue}
use metro_backend.Route.Search.{Edge, target, start_of, Search, cost}
use metro_backend.Route.Search.Sound.{Among}
use metro_backend.Route.Search.Trace.{Traced, IsTraced}
use metro_backend.Route.Transfers.{OnRoutes}

abbrev pub before_of : (Node → List Node) → Option Node → List Node
before_of follow none = []
before_of follow (some p) = follow p

-- The states from the given one back to one that has no state before it.
unfoldable pub path_keys : ℕ → (Node → Option Node) → Node → List Node
path_keys zero prev key = []
path_keys (suc fuel) prev key = key ∷ before_of (path_keys fuel prev) (prev key)

-- The path is what was followed back, turned round.
abbrev pub path_to : ℕ → (Node → Option Node) → Node → List Node
path_to fuel prev key = reverse (path_keys fuel prev key)

module _ (queue : PriorityQueue) (edges : String → List Edge) (penalty : ℕ) where
  -- The states follow each other over edges, with their cost.
  abbrev pub Rides : Node → List Node → ℕ → Type 0
  Rides k [] c = c ≡ 0
  Rides k (n ∷ path) c =
      (e : Edge) × ((rest : ℕ) × (Among e (edges k.station_id)
          × ((n ≡ target e) × ((c ≡ cost queue edges penalty k e + rest) × Rides n path rest))))

  -- The last state of a path.
  abbrev pub end_of : Node → List Node → Node
  end_of k [] = k
  end_of k (n ∷ path) = end_of n path

  -- A path from the origin to a state.
  pub record IsPath (origin : String) (goal : Node) (c : ℕ) (path : List Node) : Type 0 where
    pub rest : List Node
    pub from_origin : path ≡ start_of origin ∷ rest
    pub rides : Rides (start_of origin) rest c
    pub ends : end_of (start_of origin) rest ≡ goal

  follow :
      (origin : String) (s : Search queue)
      → IsTraced queue edges penalty origin s
      → (fuel : ℕ) (k : Node) (d : ℕ) (acc : List Node) (c : ℕ) → s.dist k ≡ some d
      → d < fuel
      → Rides k acc c
      → IsPath origin (end_of k acc) (d + c) (reverse_aux (path_keys fuel s.prev k) acc)
  unfolding path_keys
  follow origin s t zero k d acc c now enough r = ground arith
  follow origin s t (suc fuel) k d acc c now enough r =
      step (λ p n path cost there low rides. follow origin s t fuel p n path cost there low rides)
        (s.prev k) (t.traced k d now)
    where
      step :
          ((p : Node) (n : ℕ) (path : List Node) (cost : ℕ)
            → s.dist p ≡ some n
            → n < fuel
            → Rides p path cost
            → IsPath origin (end_of p path) (n + cost) (reverse_aux (path_keys fuel s.prev p) path))
          → (o : Option Node) → Traced queue edges penalty origin s k d o
          → IsPath origin
              (end_of k acc)
              (d + c)
              (reverse_aux (before_of (path_keys fuel s.prev) o) (k ∷ acc))
      step again none (start, num) = record {
        rest = acc;
        from_origin = ap (λ k. k ∷ acc) start;
        rides =
            subst (λ n. Rides (start_of origin) acc n) (omega (arith, num))
              (subst (λ k. Rides k acc c) start r);
        ends = ap (λ k. end_of k acc) (sym start);
      }
      step again (some p) w =
          let whole =
            again p w.from (k ∷ acc) (cost queue edges penalty p w.edge + c) w.dist
              (omega (arith, w.adds, enough)) (w.edge, (c, (w.among, (w.leads, (refl, r))))) in
          subst
            (λ n. IsPath origin (end_of k acc) n (reverse_aux (path_keys fuel s.prev p) (k ∷ acc)))
            (omega (arith, w.adds)) whole

  -- Following `prev` back from a state with a distance gives a path of that cost.
  pub path_to-IsPath :
      (origin : String) (s : Search queue) (fuel : ℕ) (k : Node) (d : ℕ)
      → IsTraced queue edges penalty origin s
      → s.dist k ≡ some d
      → d < fuel
      → IsPath origin k d (path_to fuel s.prev k)
  path_to-IsPath origin s fuel k d t now enough =
      subst (λ n. IsPath origin k n (path_to fuel s.prev k)) (omega arith)
        (follow origin s t fuel k d [] 0 now enough refl)

  -- What a ride costs.
  pub Rides-cost :
      (k : Node) (path : List Node) (c : ℕ)
      → Rides k path c
      → (c ≡ length path + penalty * transfers (k ∷ path)) × OnRoutes path
  unfolding transfers
  Rides-cost k [] c r = (ground (arith, r), tt)
  Rides-cost k (n ∷ path) c (e, (rest, (among, (leads, (adds, more))))) =
      let (sum, routes) = Rides-cost n path rest more in
      (ground (arith, sum, leads, adds), (ground (arith, leads), routes))
