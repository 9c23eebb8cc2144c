-- ===== src/Route/ShortestPath/Walks.antt =====
-- Walks of the graph that `findShortestPathWithTransfers` builds.
use metro_backend.Prelude.{
  ℕ, ◌≡◌, inl, inr, refl, ap, subst, true, false, ◌&&◌, String, str_eq, eq_iff, Option, none, some,
  List, [], ◌∷◌, map, arith, Bool-cases,
}
use metro_backend.Route.{RouteStation}
use metro_backend.Route.Segments.{Node}
use metro_backend.Route.Heap.Instance.{min_heap}
use metro_backend.Route.Search.{Edge, target, start_of}
use metro_backend.Route.Search.Sound.{Among, Walk, stand, ride}
use metro_backend.Route.Search.Ends.{AmongNodes}
use metro_backend.Route.Graph.{Link, or_empty, edges_of, has, edge_of, links, neighbors_of}
use metro_backend.Route.Graph.Links.{Linked, back, neighbors_of-links, neighbors_of-back}
use metro_backend.Route.ShortestPath.{states}

-- A walk of the graph that the rows make.
abbrev pub WalkOn : List RouteStation → ℕ → String → Node → ℕ → Type 0
WalkOn rows penalty = Walk min_heap (edges_of (neighbors_of rows)) penalty

Linked-states :
    (a : String) (e : Edge) (ls : List Link)
    → Linked a e ls
    → AmongNodes (target e) (map (λ (l : Link). target (edge_of l)) ls)
Linked-states a e [] m = m
Linked-states a e (l ∷ ls) (inl (from, eq)) = inl (ap target eq)
Linked-states a e (l ∷ ls) (inr m) = inr (Linked-states a e ls m)

pub states_closed :
    (rows : List RouteStation) (origin : String) (k : Node) (e : Edge)
    → AmongNodes k (states rows origin)
    → Among e (edges_of (neighbors_of rows) k.station_id)
    → AmongNodes (target e) (states rows origin)
states_closed rows origin k e inside m =
    inr (Linked-states k.station_id e (links rows) ((neighbors_of-links rows k.station_id e).0 m))

has-Among : (e : Edge) (o : Option (List Edge)) → Among e (or_empty o) → has o ≡ true
has-Among e none m = elim m [ ]
has-Among e (some edges) m = refl

module _ (rows : List RouteStation) (origin destination : String) (penalty : ℕ) where
  alone :
      (k : Node) (c : ℕ)
      → has (neighbors_of rows origin) ≡ false
      → WalkOn rows penalty origin k c
      → k ≡ start_of origin
  alone k c none_of stand = refl
  alone _ _ none_of (ride k c e w m) =
      let here = alone k c none_of w in
      absurd (
        ground (
          arith,
          none_of,
          has-Among e (neighbors_of rows origin)
              (subst (λ (k : Node). Among e (edges_of (neighbors_of rows) k.station_id)) here m),
        ))

  pub walk-isolated :
      (k : Node) (c : ℕ)
      → has (neighbors_of rows origin) && has (neighbors_of rows destination) ≡ false
      → WalkOn rows penalty origin k c
      → str_eq origin destination ≡ false
      → str_eq k.station_id destination ≡ false
  walk-isolated k c apart stand other = other
  walk-isolated _ _ apart (ride k c e w m) other = elim (Bool-cases (str_eq e.to destination)) [
    | inr away ↦ away
    | inl there ↦
        let back_too =
          has-Among (back k.station_id e) (neighbors_of rows e.to)
            (neighbors_of-back rows k.station_id e m) in
        let at_end = ap (λ b. has (neighbors_of rows b)) ((eq_iff e.to destination).0 there) in
        let from_start =
          ap (λ (k : Node). k.station_id)
            (alone (target e) _ (ground (arith, apart, back_too, at_end)) (ride k c e w m)) in
        absurd (ground (arith, from_start, there, other))
  ]
