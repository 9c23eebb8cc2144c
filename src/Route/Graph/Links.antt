-- ===== src/Route/Graph/Links.antt =====
-- The neighbours are the links, and the links go both ways.
use metro_backend.Prelude.{
  ◌≡◌, ◌↔◌, ◌⊎◌, inl, inr, sym, subst, String, str_eq, eq_iff, none, List, [], ◌∷◌, ◌++◌, arith,
  Bool-cases,
}
use metro_backend.Route.{RouteStation}
use metro_backend.Route.Search.{Edge}
use metro_backend.Route.Search.Sound.{Among}
use metro_backend.Route.Graph.{
  Stop, RouteStops, Link, Neighbors, edges_of, edge_of, add_edge, add_edges, sort_stops,
  links_between, links_of, links, neighbors_of, by_route,
}

-- One of the links is the edge from the station.
abbrev pub Linked : String → Edge → List Link → Type 0
Linked a e [] = ⊥
Linked a e (l ∷ ls) = ((a ≡ l.from) × (e ≡ edge_of l)) ⊎ Linked a e ls

Among-append : (e x : Edge) (xs : List Edge) → Among e (xs ++ x ∷ []) → Among e xs ⊎ (e ≡ x)
Among-append e x [] (inl h) = inr h
Among-append e x [] (inr h) = elim h [ ]
Among-append e x (y ∷ xs) (inl h) = inl (inl h)
Among-append e x (y ∷ xs) (inr h) = elim (Among-append e x xs h) [
  | inl m ↦ inl (inr m)
  | inr m ↦ inr m
]

append-Among : (e x : Edge) (xs : List Edge) → Among e xs ⊎ (e ≡ x) → Among e (xs ++ x ∷ [])
append-Among e x [] (inl h) = elim h [ ]
append-Among e x [] (inr h) = inl h
append-Among e x (y ∷ xs) (inl (inl h)) = inl h
append-Among e x (y ∷ xs) (inl (inr h)) = inr (append-Among e x xs (inl h))
append-Among e x (y ∷ xs) (inr h) = inr (append-Among e x xs (inr h))

module _ (a : String) (e : Edge) where
  edges_of-add_edge :
      (l : Link) (nb : Neighbors)
      → Among e (edges_of (add_edge l nb) a)
        ↔ (Among e (edges_of nb a) ⊎ ((a ≡ l.from) × (e ≡ edge_of l)))
  unfolding add_edge
  edges_of-add_edge l nb = elim (Bool-cases (str_eq l.from a)) [
    | inl same ↦
        let eq = (eq_iff l.from a).0 same in
        rw same (
          λ m. elim (Among-append e (edge_of l) (edges_of nb l.from) m) [
            | inl there ↦ inl (subst (λ b. Among e (edges_of nb b)) eq there)
            | inr this ↦ inr (sym eq, this)
          ],
          λ m. append-Among e (edge_of l) (edges_of nb l.from) (elim m [
            | inl there ↦ inl (subst (λ b. Among e (edges_of nb b)) (sym eq) there)
            | inr this ↦ inr this.1
          ]),
        )
    | inr other ↦ rw other (
      λ m. inl m,
      λ m. elim m [
        | inl there ↦ there
        | inr this ↦ absurd (ground (arith, this.0, other, eq_iff l.from a))
      ],
    )
  ]

  edges_of-add_edges :
      (ls : List Link) (nb : Neighbors)
      → Among e (edges_of (add_edges ls nb) a) ↔ (Among e (edges_of nb a) ⊎ Linked a e ls)
  unfolding add_edges
  edges_of-add_edges [] nb = ground arith
  edges_of-add_edges (l ∷ ls) nb =
      ground (arith, edges_of-add_edges ls (add_edge l nb), edges_of-add_edge l nb)

  pub Linked-append : (xs ys : List Link) → Linked a e (xs ++ ys) ↔ (Linked a e xs ⊎ Linked a e ys)
  Linked-append [] ys = ground arith
  Linked-append (x ∷ xs) ys = ground (arith, Linked-append xs ys)

-- The edge back.
abbrev pub back : String → Edge → Edge
back a e = record { to = a; route_id = e.route_id }

between-back :
    (route_id : String) (stops : List Stop) (a : String) (e : Edge)
    → Linked a e (links_between route_id stops)
    → Linked e.to (back a e) (links_between route_id stops)
unfolding links_between
between-back r [] a e m = m
between-back r (x ∷ []) a e m = m
between-back r (x ∷ y ∷ rest) a e m = elim m [
  | inl there ↦ inr (inl (ground (arith, there)))
  | inr later ↦ elim later [
    | inl there ↦ inl (ground (arith, there))
    | inr rest_of ↦ inr (inr (between-back r (y ∷ rest) a e rest_of))
  ]
]

links_of-back :
    (groups : List RouteStops) (a : String) (e : Edge)
    → Linked a e (links_of groups)
    → Linked e.to (back a e) (links_of groups)
unfolding links_of
links_of-back [] a e m = m
links_of-back (g ∷ groups) a e m =
    let mine = links_between g.route_id (sort_stops g.stops) in
    (Linked-append e.to (back a e) mine (links_of groups)).1
      (elim ((Linked-append a e mine (links_of groups)).0 m) [
        | inl this ↦ inl (between-back g.route_id (sort_stops g.stops) a e this)
        | inr other ↦ inr (links_of-back groups a e other)
      ])

-- An edge is one of the links.
pub neighbors_of-links :
    (rows : List RouteStation) (a : String) (e : Edge)
    → Among e (edges_of (neighbors_of rows) a) ↔ Linked a e (links rows)
unfolding neighbors_of
neighbors_of-links rows a e = ground (arith, edges_of-add_edges a e (links rows) (λ id. none))

-- Every edge goes back as well, on the same route.
pub neighbors_of-back :
    (rows : List RouteStation) (a : String) (e : Edge)
    → Among e (edges_of (neighbors_of rows) a)
    → Among (back a e) (edges_of (neighbors_of rows) e.to)
neighbors_of-back rows a e m = (neighbors_of-links rows e.to (back a e)).1 (
    unfold links in
    links_of-back (by_route rows []) a e (unfold links in (neighbors_of-links rows a e).0 m))
