-- ===== src/Route.antt =====
-- transport-service/src/services/routeStation.service.js: the stops of a route and their order. An
-- insert of a row without its primary key fails, and any other statement sent to the database
-- succeeds; what a statement wrote stays written when a later step throws, since no transaction is
-- opened.
pub mod Positions
pub mod Reorder
pub mod Segments
pub mod Transfers
pub mod Queue
pub mod Heap
pub mod Search
pub mod Path
pub mod Graph
pub mod ShortestPath
use metro_backend.Prelude.{
  ℕ, zero, suc, ◌+◌, Bool, true, false, not, ◌&&◌, String, str_eq, Option, none, some, List, [],
  ◌∷◌, ◌++◌, map, any, keep, length, sort, ◌==◌, if◌then◌else◌, Action, ok, err, ◌>>=◌, ◌>>◌, pure,
  throw, require, get_state,
}

pub record RouteStation : Type 0 where
  pub route_station_id : String
  pub route_id : String
  pub station_id : String
  pub sequence : ℕ

pub record Network : Type 0 where
  pub routes : List String
  pub stations : List String
  pub route_stations : List RouteStation

pub data Refusal : Type 0 where
  route_not_found station_not_found not_consecutive wrong_number : Refusal
  invalid_sequence : ℕ → ℕ → Refusal
  no_stations null_id : Refusal

pub data Validation : Type 0 where
  no_stops : Validation
  invalid_at : ℕ → ℕ → Validation
  valid : ℕ → Validation

abbrev pub Service : Type 0 → Type 0
Service = Action Network Refusal

pub record Placement : Type 0 where
  pub station_id : String
  pub sequence : ℕ

-- `ids.includes(id)`.
abbrev pub includes : List String → String → Bool
includes ids id = any (str_eq id) ids

abbrev pub of_route : String → RouteStation → Bool
of_route route_id rs = str_eq rs.route_id route_id

-- `sequences[i] !== i + 1` for no i, counted from `i`.
unfoldable pub consecutive : ℕ → List ℕ → Bool
consecutive i [] = true
consecutive i (x ∷ xs) = x == i + 1 && consecutive (i + 1) xs

-- The first place at which the sequence is not the expected one.
unfoldable pub check_sequences : ℕ → List ℕ → Validation
check_sequences i [] = valid i
check_sequences i (x ∷ xs) = if x == i + 1 then check_sequences (i + 1) xs else invalid_at (i + 1) x

unfoldable pub validation_of : List ℕ → Validation
validation_of [] = no_stops
validation_of (x ∷ xs) = check_sequences 0 (x ∷ xs)

abbrev pub sequences_of : String → Network → List ℕ
sequences_of route_id s =
    map (λ (rs : RouteStation). rs.sequence) (keep (of_route route_id) s.route_stations)

unfoldable pub validate_route_sequence : String → Network → Validation
validate_route_sequence route_id s = validation_of (sort (sequences_of route_id s))

-- A row as `bulkCreate` is given it: the id is missing where the code sets none.
pub record NewStop : Type 0 where
  pub route_station_id : Option String
  pub route_id : String
  pub station_id : String
  pub sequence : ℕ

-- The rows of a route; no id is set.
abbrev pub placed_row : String → Placement → NewStop
placed_row route_id p = record {
  route_station_id = none;
  route_id = route_id;
  station_id = p.station_id;
  sequence = p.sequence;
}

-- The id is the primary key, which has no default and is not null.
abbrev stored_row : Option String → NewStop → List RouteStation → Option (List RouteStation)
stored_row none n rest = none
stored_row (some id) n rest = some (
    record {
      route_station_id = id;
      route_id = n.route_id;
      station_id = n.station_id;
      sequence = n.sequence;
    }
    ∷ rest)

unfoldable pub stored_rows : List NewStop → Option (List RouteStation)
stored_rows [] = some []
stored_rows (n ∷ ns) = elim (stored_rows ns) [
  | none ↦ none
  | some rest ↦ stored_row n.route_station_id n rest
]

-- `bulkCreate`: one statement, which stores all of the rows or fails.
unfoldable pub bulk_create : List NewStop → Service (List RouteStation)
bulk_create ns s = elim (stored_rows ns) [
  | none ↦ (err null_id, s)
  | some rows ↦ (ok rows, record s { route_stations = s.route_stations ++ rows })
]

-- The stops of the route are destroyed before the new ones are created.
unfoldable pub replace_stops : String → List Placement → Service (List RouteStation)
replace_stops route_id ps s =
    bulk_create (map (placed_row route_id) ps)
      (record s { route_stations = keep (λ rs. not (of_route route_id rs)) s.route_stations })

unfoldable pub setup_complete_route : String → List Placement → Service (List RouteStation)
setup_complete_route route_id station_sequences = do
  s ← get_state
  require (includes s.routes route_id) route_not_found
  let station_ids = map (λ (p : Placement). p.station_id) station_sequences
  require (length (keep (includes station_ids) s.stations) == length station_ids) station_not_found
  require (consecutive 0 (sort (map (λ (p : Placement). p.sequence) station_sequences)))
      not_consecutive
  replace_stops route_id station_sequences

pub record NewSequence : Type 0 where
  pub route_station_id : String
  pub sequence : ℕ

-- One `RouteStation.update`, on the rows with the id and the route.
unfoldable pub set_sequence : String → NewSequence → List RouteStation → List RouteStation
set_sequence route_id item [] = []
set_sequence route_id item (rs ∷ rest) =
    (if str_eq rs.route_station_id item.route_station_id && of_route route_id rs
      then record rs { sequence = item.sequence }
      else rs)
    ∷ set_sequence route_id item rest

-- The updates are sent together; here the database takes them in the order of the items.
unfoldable pub set_sequences : String → List NewSequence → List RouteStation → List RouteStation
set_sequences route_id [] rows = rows
set_sequences route_id (item ∷ items) rows =
    set_sequences route_id items (set_sequence route_id item rows)

-- The answer after the updates: the validation, or what it found wrong, thrown.
unfoldable pub answer_of : Validation → Service Validation
answer_of (valid n) = pure (valid n)
answer_of no_stops = throw no_stations
answer_of (invalid_at i x) = throw (invalid_sequence i x)

unfoldable pub write_sequences : String → List NewSequence → Service Validation
write_sequences route_id items s =
    let after = record s { route_stations = set_sequences route_id items s.route_stations } in
    answer_of (validate_route_sequence route_id after) after

unfoldable pub reorder_route_stations : String → List NewSequence → Service Validation
reorder_route_stations route_id new_sequences = do
  s ← get_state
  require (length (keep (of_route route_id) s.route_stations) == length new_sequences) wrong_number
  write_sequences route_id new_sequences
