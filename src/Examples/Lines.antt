-- ===== src/Examples/Lines.antt =====
-- Routes with a few stations, set up, reordered and travelled.
use metro_backend.Prelude.{
  ℕ, ◌≡◌, refl, String, none, some, List, [], ◌∷◌, false, is_ok, keep, if◌then◌else◌, arith,
}
use metro_backend.Route.{
  RouteStation, Network, Placement, NewSequence, no_stops, of_route, validate_route_sequence,
  setup_complete_route,
}
use metro_backend.Route.Positions.{passes, setup_complete_route-empties}
use metro_backend.Route.Segments.{Node, collapse, cleaned, stations_of}
use metro_backend.Route.Transfers.{stations_of-cleaned}

abbrev pub stop : String → String → String → ℕ → RouteStation
stop id route station n = record {
  route_station_id = id;
  route_id = route;
  station_id = station;
  sequence = n;
}

-- A red route that is in place, and a blue one without stops.
abbrev network : Network
network = record {
  routes = "red" ∷ "blue" ∷ [];
  stations = "a" ∷ "b" ∷ "c" ∷ [];
  route_stations = stop "1" "red" "b" 2 ∷ stop "2" "red" "a" 1 ∷ [];
}

abbrev blue : List Placement
blue = record { station_id = "c"; sequence = 2 } ∷ record { station_id = "b"; sequence = 1 } ∷ []

setup_complete_route-empties_example :
    (is_ok (setup_complete_route "red" blue network).0 ≡ false)
    × (validate_route_sequence "red" (setup_complete_route "red" blue network).1
        ≡ (if passes "red" blue network then no_stops else validate_route_sequence "red" network))
    × (keep (of_route "blue") (setup_complete_route "red" blue network).1.route_stations
        ≡ keep (of_route "blue") network.route_stations)
setup_complete_route-empties_example =
    setup_complete_route-empties "red" blue network "blue" (omega arith) refl

-- An order that gives both stops the second place.
abbrev clash : List NewSequence
clash =
    record { route_station_id = "1"; sequence = 2 }
    ∷ record { route_station_id = "2"; sequence = 2 }
    ∷ []

abbrev origin : Node
origin = record { station_id = "a"; route_id = none }

abbrev second : Node
second = record { station_id = "b"; route_id = some "red" }

abbrev third : List Node
third = record { station_id = "c"; route_id = some "blue" } ∷ []

stations_of-cleaned_example :
    stations_of (cleaned (collapse [] (origin ∷ second ∷ third))) ≡ "b" ∷ "c" ∷ []
stations_of-cleaned_example = stations_of-cleaned origin second third refl (refl, (refl, tt))
