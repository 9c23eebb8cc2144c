-- ===== src/Route/Graph/Groups.antt =====
-- The groups of `byRoute` are the rows of each route.
use metro_backend.Prelude.{
  ◌≡◌, inl, inr, refl, sym, ap, subst, ◌∙◌, Bool, true, false, String, str_eq, eq_iff, List, [],
  ◌∷◌, ◌++◌, arith, Bool-cases, if◌then◌else◌,
}
use metro_backend.Route.{RouteStation}
use metro_backend.Route.Search.{Edge}
use metro_backend.Route.Graph.{
  Stop, RouteStops, add_stop, by_route, sort_stops, links_between, links_of, links,
}
use metro_backend.Route.Graph.Links.{Linked, Linked-append}

abbrev pub stop_of : RouteStation → Stop
stop_of rs = record { station_id = rs.station_id; sequence = rs.sequence }

-- The stops of a route among the rows.
abbrev pub stops_of_route : String → List RouteStation → List Stop
stops_of_route r [] = []
stops_of_route r (rs ∷ rows) =
    let rest = stops_of_route r rows in if str_eq rs.route_id r then stop_of rs ∷ rest else rest

stops_at : String → List RouteStops → List Stop
stops_at r [] = []
stops_at r (g ∷ gs) = let rest = stops_at r gs in if str_eq g.route_id r then g.stops else rest

has_route : String → List RouteStops → Bool
has_route r [] = false
has_route r (g ∷ gs) = let rest = has_route r gs in if str_eq g.route_id r then true else rest

IsGrouped : List RouteStops → Type 0
IsGrouped [] = Unit
IsGrouped (g ∷ gs) = (has_route g.route_id gs ≡ false) × IsGrouped gs

++-none : (xs : List Stop) → xs ++ [] ≡ xs
++-none [] = refl
++-none (x ∷ xs) = ap (λ r. x ∷ r) (++-none xs)

++-one : (xs ys : List Stop) (x : Stop) → (xs ++ x ∷ []) ++ ys ≡ xs ++ x ∷ ys
++-one [] ys x = refl
++-one (y ∷ xs) ys x = ap (λ r. y ∷ r) (++-one xs ys x)

stops_at-add_stop :
    (r : String) (rs : RouteStation) (gs : List RouteStops)
    → stops_at r (add_stop rs gs)
      ≡ (if str_eq rs.route_id r then stops_at r gs ++ stop_of rs ∷ [] else stops_at r gs)
unfolding add_stop stops_at
stops_at-add_stop r rs [] = elim (Bool-cases (str_eq rs.route_id r)) [
  | inl same ↦ rw same refl
  | inr other ↦ rw other refl
]
stops_at-add_stop r rs (g ∷ gs) = ground (
  arith,
  stops_at-add_stop r rs gs,
  eq_iff g.route_id rs.route_id,
  eq_iff g.route_id r,
  eq_iff rs.route_id r,
)

stops_at-by_route :
    (r : String) (rows : List RouteStation) (gs : List RouteStops)
    → stops_at r (by_route rows gs) ≡ stops_at r gs ++ stops_of_route r rows
unfolding by_route
stops_at-by_route r [] gs = sym (++-none (stops_at r gs))
stops_at-by_route r (rs ∷ rows) gs = elim (Bool-cases (str_eq rs.route_id r)) [
  | inl same ↦
      let added = stops_at-add_stop r rs gs in
      rw same (
        stops_at-by_route r rows (add_stop rs gs)
        ∙ ap (λ xs. xs ++ stops_of_route r rows) (rw same at added)
        ∙ ++-one (stops_at r gs) (stops_of_route r rows) (stop_of rs))
  | inr other ↦
      let added = stops_at-add_stop r rs gs in
      rw other (
        stops_at-by_route r rows (add_stop rs gs)
        ∙ ap (λ xs. xs ++ stops_of_route r rows) (rw other at added))
]

has_route-add_stop :
    (r : String) (rs : RouteStation) (gs : List RouteStops)
    → str_eq rs.route_id r ≡ false
    → has_route r gs ≡ false
    → has_route r (add_stop rs gs) ≡ false
unfolding add_stop has_route
has_route-add_stop r rs [] other h = rw other refl
has_route-add_stop r rs (g ∷ gs) other h = ground (arith, other, h, has_route-add_stop r rs gs)

add_stop-IsGrouped :
    (rs : RouteStation) (gs : List RouteStops) → IsGrouped gs → IsGrouped (add_stop rs gs)
unfolding add_stop IsGrouped
add_stop-IsGrouped rs [] h = (unfold has_route in refl, tt)
add_stop-IsGrouped rs (g ∷ gs) h = elim (Bool-cases (str_eq g.route_id rs.route_id)) [
  | inl same ↦ rw same h
  | inr other ↦ rw other (
    has_route-add_stop g.route_id rs gs
        (ground (arith, other, eq_iff g.route_id rs.route_id, eq_iff rs.route_id g.route_id)) h.0,
    add_stop-IsGrouped rs gs h.1,
  )
]

by_route-IsGrouped :
    (rows : List RouteStation) (gs : List RouteStops) → IsGrouped gs → IsGrouped (by_route rows gs)
unfolding by_route
by_route-IsGrouped [] gs h = h
by_route-IsGrouped (rs ∷ rows) gs h =
    by_route-IsGrouped rows (add_stop rs gs) (add_stop-IsGrouped rs gs h)

links_between-route :
    (r a : String) (e : Edge) (xs : List Stop) → Linked a e (links_between r xs) → e.route_id ≡ r
unfolding links_between
links_between-route r a e [] m = elim m [ ]
links_between-route r a e (x ∷ []) m = elim m [ ]
links_between-route r a e (x ∷ y ∷ rest) m = elim m [
  | inl (from, eq) ↦ ap (λ (e : Edge). e.route_id) eq
  | inr later ↦ elim later [
    | inl (from, eq) ↦ ap (λ (e : Edge). e.route_id) eq
    | inr more ↦ links_between-route r a e (y ∷ rest) more
  ]
]

stops_at-none : (r : String) (gs : List RouteStops) → has_route r gs ≡ false → stops_at r gs ≡ []
unfolding stops_at has_route
stops_at-none r [] h = refl
stops_at-none r (g ∷ gs) h = ground (arith, h, stops_at-none r gs)

links_of-at :
    (gs : List RouteStops) (a : String) (e : Edge)
    → IsGrouped gs
    → Linked a e (links_of gs)
    → Linked a e (links_between e.route_id (sort_stops (stops_at e.route_id gs)))
unfolding links_of stops_at IsGrouped links_between sort_stops
links_of-at [] a e h m = elim m [ ]
links_of-at (g ∷ gs) a e h m =
    elim ((Linked-append a e (links_between g.route_id (sort_stops g.stops)) (links_of gs)).0 m) [
      | inl this ↦
          let route = links_between-route g.route_id a e (sort_stops g.stops) this in
          let same : str_eq g.route_id e.route_id ≡ true =
            ground (arith, eq_iff g.route_id e.route_id, route) in
          rw same (subst (λ r. Linked a e (links_between r (sort_stops g.stops))) (sym route) this)
      | inr other ↦ elim (Bool-cases (str_eq g.route_id e.route_id)) [
        | inl same ↦
            let none_at =
              stops_at-none e.route_id gs
                (subst (λ r. has_route r gs ≡ false) ((eq_iff g.route_id e.route_id).0 same) h.0) in
            absurd (
              subst (λ xs. Linked a e (links_between e.route_id (sort_stops xs))) none_at
                (links_of-at gs a e h.1 other))
        | inr differs ↦ rw differs (links_of-at gs a e h.1 other)
      ]
    ]

-- An edge joins two stops that follow each other among the stops of its route, in the order of their
-- sequences.
pub links-route :
    (rows : List RouteStation) (a : String) (e : Edge)
    → Linked a e (links rows)
    → Linked a e (links_between e.route_id (sort_stops (stops_of_route e.route_id rows)))
unfolding links stops_at
links-route rows a e m =
    subst (λ xs. Linked a e (links_between e.route_id (sort_stops xs)))
      (stops_at-by_route e.route_id rows [])
      (links_of-at (by_route rows []) a e (by_route-IsGrouped rows [] (unfold IsGrouped in tt)) m)
