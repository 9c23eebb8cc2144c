-- ===== src/Route/ShortestPath.antt =====
-- `findShortestPathWithTransfers` as a whole: the graph, the search, the path and its segments. The
-- rows are those of `RouteStation.findAll`, in its order. The stations' details are not read, and
-- the fuel is for every edge of the graph.
pub mod Walks
pub mod Answered
use metro_backend.Prelude.{
  ℕ, ◌+◌, Bool, true, false, not, ◌&&◌, ◌||◌, String, str_eq, Option, none, some, List, [], ◌∷◌,
  map, if◌then◌else◌,
}
use metro_backend.Route.{RouteStation}
use metro_backend.Route.Segments.{Node, Segment, collapse, cleaned, transfers}
use metro_backend.Route.Queue.{Entry}
use metro_backend.Route.Heap.Instance.{min_heap}
use metro_backend.Route.Search.{
  Edge, target, start_of, Search, Outcome, out_of_fuel, unreachable, arrived, search, begin,
}
use metro_backend.Route.Search.Ends.{weigh}
use metro_backend.Route.Path.{path_to}
use metro_backend.Route.Graph.{Link, Neighbors, edges_of, has, edge_of, links, neighbors_of}

pub record PathFound : Type 0 where
  pub path : List Node
  pub total_cost : Option ℕ
  pub transfers : ℕ
  pub segments : List Segment

-- The path that is answered; an empty one with the cost `Infinity`; or an error.
pub data Result : Type 0 where
  found : PathFound → Result
  no_path ids_required endless : Result

-- The states that the search can come to.
abbrev pub states : List RouteStation → String → List Node
states rows origin = start_of origin ∷ map (λ (l : Link). target (edge_of l)) (links rows)

abbrev pub enough_fuel : List RouteStation → String → ℕ
enough_fuel rows origin = weigh (edges_of (neighbors_of rows)) (λ k. false) (states rows origin) + 2

abbrev pub found_at : Entry → Search min_heap → PathFound
found_at e s =
    let path = path_to (e.dist + 1) s.prev e.node in
    record {
      path = path;
      total_cost = s.dist e.node;
      transfers = transfers path;
      segments = cleaned (collapse [] path);
    }

abbrev pub answer_of : Outcome min_heap → Result
answer_of out_of_fuel = endless
answer_of unreachable = no_path
answer_of (arrived e s) = found (found_at e s)

unfoldable pub find_in : List RouteStation → String → String → ℕ → Result
find_in [] origin destination penalty = no_path
find_in (row ∷ rest) origin destination penalty =
    let rows = row ∷ rest in
    let neighbors = neighbors_of rows in
    if not (has (neighbors origin)) || not (has (neighbors destination))
    then no_path
    else answer_of (
        search min_heap (edges_of neighbors) penalty (enough_fuel rows origin) destination
          (begin min_heap (edges_of neighbors) penalty origin))

unfoldable pub find_shortest_path : List RouteStation → String → String → ℕ → Result
find_shortest_path rows origin destination penalty =
    if str_eq origin "" || str_eq destination ""
    then ids_required
    else find_in rows origin destination penalty
