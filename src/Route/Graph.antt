-- ===== src/Route/Graph.antt =====
-- The graph of `findShortestPathWithTransfers`: the neighbours of each station along the routes. A
-- weight is always 1 and is left out.
pub mod Links
pub mod Groups
pub mod Neighbors
use metro_backend.Prelude.{
  ℕ, ◌+◌, Bool, true, false, String, str_eq, Option, none, some, List, [], ◌∷◌, ◌++◌, map, leb,
  if◌then◌else◌,
}
use metro_backend.Route.{RouteStation}
use metro_backend.Route.Search.{Edge}

pub record Stop : Type 0 where
  pub station_id : String
  pub sequence : ℕ

-- An entry of the map `byRoute`, in the order of its keys.
pub record RouteStops : Type 0 where
  pub route_id : String
  pub stops : List Stop

-- A call of `addEdge`.
pub record Link : Type 0 where
  pub from : String
  pub to : String
  pub route_id : String

abbrev pub Neighbors : Type 0
Neighbors = String → Option (List Edge)

-- `neighbors.get(id) || []`.
abbrev pub or_empty : Option (List Edge) → List Edge
or_empty none = []
or_empty (some edges) = edges

abbrev pub edges_of : Neighbors → String → List Edge
edges_of neighbors id = or_empty (neighbors id)

-- `neighbors.has(id)`.
abbrev pub has : Option (List Edge) → Bool
has none = false
has (some edges) = true

abbrev pub edge_of : Link → Edge
edge_of link = record { to = link.to; route_id = link.route_id }

unfoldable pub add_edge : Link → Neighbors → Neighbors
add_edge link neighbors id =
    if str_eq link.from id
    then some (edges_of neighbors link.from ++ edge_of link ∷ [])
    else neighbors id

unfoldable pub add_edges : List Link → Neighbors → Neighbors
add_edges [] neighbors = neighbors
add_edges (link ∷ rest) neighbors = add_edges rest (add_edge link neighbors)

-- A stop joins the stops of its route, or begins those of a new one.
unfoldable pub add_stop : RouteStation → List RouteStops → List RouteStops
add_stop rs [] =
    record {
      route_id = rs.route_id;
      stops = record { station_id = rs.station_id; sequence = rs.sequence } ∷ [];
    }
    ∷ []
add_stop rs (group ∷ rest) =
    let others = add_stop rs rest in
    if str_eq group.route_id rs.route_id
    then record group {
      stops = group.stops ++ record { station_id = rs.station_id; sequence = rs.sequence } ∷ [];
    }
      ∷ rest
    else group ∷ others

unfoldable pub by_route : List RouteStation → List RouteStops → List RouteStops
by_route [] groups = groups
by_route (rs ∷ rows) groups = by_route rows (add_stop rs groups)

-- `stations.sort((a, b) => a.sequence - b.sequence)`, which is stable.
unfoldable pub insert_stop : Stop → List Stop → List Stop
insert_stop x [] = x ∷ []
insert_stop x (y ∷ ys) =
    let rest = insert_stop x ys in if leb x.sequence y.sequence then x ∷ y ∷ ys else y ∷ rest

unfoldable pub sort_stops : List Stop → List Stop
sort_stops [] = []
sort_stops (x ∷ xs) = insert_stop x (sort_stops xs)

-- The edges of a route: between its consecutive stops, in both directions.
unfoldable pub links_between : String → List Stop → List Link
links_between route_id [] = []
links_between route_id (a ∷ []) = []
links_between route_id (a ∷ b ∷ rest) =
    record { from = a.station_id; to = b.station_id; route_id = route_id }
    ∷ record { from = b.station_id; to = a.station_id; route_id = route_id }
    ∷ links_between route_id (b ∷ rest)

unfoldable pub links_of : List RouteStops → List Link
links_of [] = []
links_of (group ∷ rest) = links_between group.route_id (sort_stops group.stops) ++ links_of rest

unfoldable pub links : List RouteStation → List Link
links rows = links_of (by_route rows [])

unfoldable pub neighbors_of : List RouteStation → Neighbors
neighbors_of rows = add_edges (links rows) (λ id. none)
