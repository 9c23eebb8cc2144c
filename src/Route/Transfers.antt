-- ===== src/Route/Transfers.antt =====
-- The transfers of a path against its segments.
use metro_backend.Prelude.{
  ℕ, ◌+◌, ◌≡◌, ◌∙◌, refl, ap, true, String, eq_iff, Option, none, some, List, [], ◌∷◌, ◌++◌, map,
  length, if◌then◌else◌, arith, All, inl, inr, Bool-cases,
}
use metro_backend.Route.Segments.{
  Node, Segment, same_route, is_route, segment_of, add_node, collapse, cleaned, transfers,
  stations_of, stations_of-collapse,
}

-- Every node after the origin has the route that led to it.
abbrev pub OnRoutes : List Node → Type 0
OnRoutes = All (λ n. is_route n.route_id ≡ true)

abbrev AllRoutes : List Segment → Type 0
AllRoutes = All (λ s. is_route s.route_id ≡ true)

last_route : Segment → List Segment → Option String
last_route s [] = s.route_id
last_route s (t ∷ r) = last_route t r

-- Segments that are not empty, all of them with a route, that end on a route.
record IsGrown (segments : List Segment) (size : ℕ) (route : Option String) : Type 0 where
  first : Segment
  rest : List Segment
  split : segments ≡ first ∷ rest
  on_routes : AllRoutes (first ∷ rest)
  last : last_route first rest ≡ route
  count : length rest ≡ size

same_route-eq : (a b : Option String) → same_route a b ≡ true → a ≡ b
same_route-eq none none h = refl
same_route-eq none (some b) h = cc
same_route-eq (some a) none h = cc
same_route-eq (some a) (some b) h = ground (arith, eq_iff a b)

-- Adding a node makes one segment more where the route changes.
add_node-IsGrown :
    (s : Segment) (r : List Segment) (n : Node)
    → is_route n.route_id ≡ true
    → AllRoutes (s ∷ r)
    → IsGrown
        (add_node (s ∷ r) n)
        (length r + (if same_route (last_route s r) n.route_id then 0 else 1))
        n.route_id
unfolding add_node last_route
add_node-IsGrown s [] n h a = elim (Bool-cases (same_route s.route_id n.route_id)) [
  | inl e ↦ rw e (record {
    first = record s { stations = s.stations ++ n.station_id ∷ [] };
    rest = [];
    split = refl;
    on_routes = a;
    last = same_route-eq s.route_id n.route_id e;
    count = omega arith;
  })
  | inr e ↦ rw e (record {
    first = s;
    rest = segment_of n ∷ [];
    split = refl;
    on_routes = (a.0, (h, tt));
    last = refl;
    count = omega arith;
  })
]
add_node-IsGrown s (t ∷ r) n h a =
    let g = add_node-IsGrown t r n h a.1 in
    record {
      first = s;
      rest = g.first ∷ g.rest;
      split = ap (λ segs. s ∷ segs) g.split;
      on_routes = (a.0, g.on_routes);
      last = g.last;
      count = omega (arith, g.count);
    }

collapse-count :
    (before : Node) (s : Segment) (r : List Segment) (path : List Node)
    → is_route before.route_id ≡ true
    → last_route s r ≡ before.route_id
    → AllRoutes (s ∷ r)
    → OnRoutes path
    → (length (collapse (s ∷ r) path) ≡ length (s ∷ r) + transfers (before ∷ path))
      × AllRoutes (collapse (s ∷ r) path)
unfolding collapse transfers
collapse-count before s r [] b l a h = (omega arith, a)
collapse-count before s r (n ∷ path) b l a h =
    let g = add_node-IsGrown s r n h.0 a in
    let (more, routes) = collapse-count n g.first g.rest path h.0 g.last g.on_routes h.1 in
    rw g.split (ground (arith, more, g.count, b, h.0, l), routes)

add_node-first :
    (s : Segment) (r : List Segment) (n : Node)
    → (t : Segment) × ((q : List Segment) × (add_node (s ∷ r) n ≡ t ∷ q))
unfolding add_node
add_node-first s [] n = elim (Bool-cases (same_route s.route_id n.route_id)) [
  | inl e ↦ rw e (_, (_, refl))
  | inr e ↦ rw e (_, (_, refl))
]
add_node-first s (t ∷ r) n = (_, (_, refl))

-- A segment that is not the last one stays as it is.
collapse-cons :
    (g s : Segment) (r : List Segment) (path : List Node)
    → collapse (g ∷ s ∷ r) path ≡ g ∷ collapse (s ∷ r) path
unfolding collapse add_node
collapse-cons g s r [] = refl
collapse-cons g s r (n ∷ path) =
    let (t, (q, e)) = add_node-first s r n in rw e (collapse-cons g t q path)

keep-routes : (segs : List Segment) → AllRoutes segs → cleaned segs ≡ segs
unfolding cleaned
keep-routes [] a = refl
keep-routes (s ∷ segs) a = rw a.0 (ap (λ r. s ∷ r) (keep-routes segs a.1))

-- The origin's segment is cleaned away.
path-segments :
    (origin n : Node) (path : List Node)
    → origin.route_id ≡ none
    → is_route n.route_id ≡ true
    → cleaned (collapse [] (origin ∷ n ∷ path)) ≡ cleaned (collapse (segment_of n ∷ []) path)
unfolding cleaned collapse add_node
path-segments origin n path o h =
    ground (arith, collapse-cons (segment_of origin) (segment_of n) [] path)

-- The cleaned segments are those of the path behind its origin.
cleaned-collapse :
    (origin n : Node) (path : List Node)
    → origin.route_id ≡ none
    → OnRoutes (n ∷ path)
    → cleaned (collapse [] (origin ∷ n ∷ path)) ≡ collapse (segment_of n ∷ []) path
cleaned-collapse origin n path o h =
    path-segments origin n path o h.0
    ∙ keep-routes (collapse (segment_of n ∷ []) path)
        (collapse-count n (segment_of n) [] path h.0 (unfold last_route in refl) (h.0, tt) h.1).1

-- A path from its origin over at least one edge has as many transfers as its cleaned segments are,
-- less one.
pub transfers-cleaned :
    (origin n : Node) (path : List Node)
    → origin.route_id ≡ none
    → OnRoutes (n ∷ path)
    → transfers (origin ∷ n ∷ path) + 1 ≡ length (cleaned (collapse [] (origin ∷ n ∷ path)))
unfolding transfers
transfers-cleaned origin n path o h =
    let more =
      (collapse-count n (segment_of n) [] path h.0 (unfold last_route in refl) (h.0, tt) h.1).0 in
    rw (cleaned-collapse origin n path o h) (ground (arith, more))

-- The cleaned segments hold the stations of the path in their order, each as often as the path has
-- it, but for the origin, which is in no segment on its own account.
pub stations_of-cleaned :
    (origin n : Node) (path : List Node)
    → origin.route_id ≡ none
    → OnRoutes (n ∷ path)
    → stations_of (cleaned (collapse [] (origin ∷ n ∷ path)))
      ≡ map (λ (m : Node). m.station_id) (n ∷ path)
stations_of-cleaned origin n path o h =
    ap stations_of (cleaned-collapse origin n path o h)
    ∙ stations_of-collapse (segment_of n ∷ []) path
    ∙ unfold stations_of in refl
