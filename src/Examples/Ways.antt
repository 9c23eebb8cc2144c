-- ===== src/Examples/Ways.antt =====
-- Searches for a shortest path through two routes that cross.
use metro_backend.Prelude.{ℕ, ◌≡◌, ◌≢◌, inl, refl, String, none, some, List, [], ◌∷◌, Option}
use metro_backend.Route.{RouteStation}
use metro_backend.Route.Segments.{Node, collapse, add_node, cleaned, transfers}
use metro_backend.Route.Queue.{Entry}
use metro_backend.Route.Heap.{push, pop, up, down, refill, swap, smaller, smallest}
use metro_backend.Route.Heap.Order.{IsHeap, push-IsHeap}
use metro_backend.Route.Heap.Instance.{empty-IsHeap}
use metro_backend.Route.Graph.Groups.{stops_of_route}
use metro_backend.Route.Graph.Neighbors.{IsNext, neighbors_of-IsNext}
use metro_backend.Route.Search.Sound.{Among, stand, ride}
use metro_backend.Route.Search.{Edge, start_of, search, visit, relax_all, relax}
use metro_backend.Route.Search.Ends.{weigh}
use metro_backend.Route.Path.{path_keys}
use metro_backend.Route.Graph.{
  edges_of, neighbors_of, add_edges, links, links_of, by_route, add_stop, links_between, sort_stops,
  insert_stop, add_edge,
}
use metro_backend.Route.ShortestPath.{PathFound, found, endless, find_shortest_path, find_in}
use metro_backend.Route.ShortestPath.Answered.{
  IsShortestPath, find_shortest_path-ends, find_shortest_path-IsShortestPath,
  find_shortest_path-finds,
}
use metro_backend.Examples.Lines.{stop}

-- The red route goes over a, b and c, the blue one over b and d.
abbrev crossing : List RouteStation
crossing =
    stop "1" "blue" "b" 1
    ∷ stop "2" "blue" "d" 2
    ∷ stop "3" "red" "a" 1
    ∷ stop "4" "red" "b" 2
    ∷ stop "5" "red" "c" 3
    ∷ []

abbrev at : String → Option String → Node
at id route = record { station_id = id; route_id = route }

abbrev from_a_to_d : PathFound
from_a_to_d = record {
  path = at "a" none ∷ at "b" (some "red") ∷ at "d" (some "blue") ∷ [];
  total_cost = some 4;
  transfers = 1;
  segments =
      record { route_id = some "red"; stations = "b" ∷ [] }
      ∷ record { route_id = some "blue"; stations = "d" ∷ [] }
      ∷ [];
}

a_to_d : find_shortest_path crossing "a" "d" 2 ≡ found from_a_to_d
unfolding find_shortest_path find_in neighbors_of add_edges links links_of by_route add_stop
    links_between sort_stops insert_stop add_edge search weigh visit relax_all relax push pop up
    down refill swap smaller smallest path_keys collapse add_node cleaned transfers
a_to_d = refl

find_shortest_path-IsShortestPath_example : IsShortestPath crossing "a" "d" 2 from_a_to_d
find_shortest_path-IsShortestPath_example =
    find_shortest_path-IsShortestPath crossing "a" "d" 2 from_a_to_d a_to_d

find_shortest_path-ends_example : find_shortest_path crossing "a" "d" 2 ≢ endless
find_shortest_path-ends_example = find_shortest_path-ends crossing "a" "d" 2

abbrev a_to_b : Edge
a_to_b = record { to = "b"; route_id = "red" }

a_to_b-Among : Among a_to_b (edges_of (neighbors_of crossing) "a")
unfolding neighbors_of add_edges links links_of by_route add_stop links_between sort_stops
    insert_stop add_edge
a_to_b-Among = inl refl

find_shortest_path-finds_example :
    (a : PathFound) × (find_shortest_path crossing "a" "b" 2 ≡ found a)
find_shortest_path-finds_example =
    find_shortest_path-finds crossing "a" "b" 2 (at "b" (some "red")) 1 refl refl
      (ride (start_of "a") 0 a_to_b stand a_to_b-Among) refl

neighbors_of-IsNext_example : IsNext (stops_of_route "red" crossing) "a" "b"
neighbors_of-IsNext_example = neighbors_of-IsNext crossing "a" a_to_b a_to_b-Among

abbrev entry : String → ℕ → Entry
entry id d = record { node = at id none; dist = d }

-- The least distance is in the first place.
abbrev three : List Entry
three = entry "x" 1 ∷ entry "y" 4 ∷ entry "z" 2 ∷ []

three-IsHeap : IsHeap three
unfolding push up swap
three-IsHeap =
    push-IsHeap (entry "z" 2) (entry "x" 1 ∷ entry "y" 4 ∷ [])
      (push-IsHeap (entry "y" 4) (entry "x" 1 ∷ []) (push-IsHeap (entry "x" 1) [] empty-IsHeap))

three-pop : pop three ≡ some (entry "x" 1, entry "z" 2 ∷ entry "y" 4 ∷ [])
unfolding pop refill down swap smaller smallest
three-pop = refl
