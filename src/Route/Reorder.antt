-- ===== src/Route/Reorder.antt =====
-- What `validateRouteSequence` and `reorderRouteStations` promise of a route's order.
use metro_backend.Prelude.{
  ℕ, ◌+◌, ◌≡◌, refl, ◌∙◌, Bool, true, false, String, str_eq, eq_iff, List, [], ◌∷◌, keep, length,
  sort, leb, ltb, ◌&&◌, if◌then◌else◌, arith,
}
use metro_backend.Route.{
  RouteStation, Network, NewSequence, Validation, valid, no_stops, invalid_at, of_route,
  consecutive, check_sequences, validation_of, sequences_of, validate_route_sequence, set_sequence,
  set_sequences, answer_of, write_sequences, reorder_route_stations,
}
use metro_backend.Route.Positions.{count, count-sort, count-consecutive}

valid-check_sequences :
    (i : ℕ) (xs : List ℕ) (n : ℕ)
    → check_sequences i xs ≡ valid n
    → (consecutive i xs ≡ true) × (i + length xs ≡ n)
unfolding check_sequences consecutive
valid-check_sequences i [] n h = ground arith
valid-check_sequences i (x ∷ xs) n h = ground (arith, valid-check_sequences (i + 1) xs n)

valid-validation_of :
    (xs : List ℕ) (n : ℕ) → validation_of xs ≡ valid n → (consecutive 0 xs ≡ true) × (length xs ≡ n)
unfolding validation_of
valid-validation_of [] n h = ground arith
valid-validation_of (x ∷ xs) n h = ground (arith, valid-check_sequences 0 (x ∷ xs) n h)

-- A route that is called valid, with a number of stops, has each position from 1 to that number
-- exactly once and no other position, in whatever order its rows are stored.
validate_route_sequence-positions :
    (route_id : String) (s : Network) (n k : ℕ)
    → validate_route_sequence route_id s ≡ valid n
    → count k (sequences_of route_id s) ≡ (if ltb 0 k && leb k n then 1 else 0)
unfolding validate_route_sequence
validate_route_sequence-positions route_id s n k h =
    let seqs = sequences_of route_id s in
    let (run, size) = valid-validation_of (sort seqs) n h in
    ground (arith, run, size, count-consecutive k 0 (sort seqs) run, count-sort k seqs)

-- The sequence that the items give to a row: the last of those with its id, or what it had.
abbrev pub new_sequence : String → ℕ → List NewSequence → ℕ
new_sequence id old [] = old
new_sequence id old (item ∷ items) =
    new_sequence id (if str_eq id item.route_station_id then item.sequence else old) items

abbrev pub reordered : String → List NewSequence → RouteStation → RouteStation
reordered route_id items rs =
    if of_route route_id rs
    then record rs { sequence = new_sequence rs.route_station_id rs.sequence items }
    else rs

-- At least one position, and in order they are 1, 2, 3 and so on.
abbrev pub is_run : List ℕ → Bool
is_run [] = false
is_run (x ∷ xs) = consecutive 0 (x ∷ xs)

abbrev is_answered : Validation → Bool
is_answered (valid n) = true
is_answered no_stops = false
is_answered (invalid_at i x) = false

set_sequence-others :
    (route_id other : String) (item : NewSequence) (rows : List RouteStation)
    → str_eq route_id other ≡ false
    → keep (of_route other) (set_sequence route_id item rows) ≡ keep (of_route other) rows
unfolding set_sequence
set_sequence-others route_id other item [] n = refl
set_sequence-others route_id other item (r ∷ rows) n = ground (
  arith,
  eq_iff r.route_id route_id,
  eq_iff r.route_id other,
  eq_iff route_id other,
  set_sequence-others route_id other item rows n,
)

set_sequences-others :
    (route_id other : String) (items : List NewSequence) (rows : List RouteStation)
    → str_eq route_id other ≡ false
    → keep (of_route other) (set_sequences route_id items rows) ≡ keep (of_route other) rows
unfolding set_sequences
set_sequences-others route_id other [] rows n = refl
set_sequences-others route_id other (item ∷ items) rows n =
    set_sequences-others route_id other items (set_sequence route_id item rows) n
    ∙ set_sequence-others route_id other item rows n

-- A new order of one route, answered or refused, leaves the stops of every other route as they are.
reorder_route_stations-others :
    (route_id other : String) (items : List NewSequence) (s : Network)
    → str_eq route_id other ≡ false
    → keep (of_route other) (reorder_route_stations route_id items s).1.route_stations
      ≡ keep (of_route other) s.route_stations
unfolding reorder_route_stations write_sequences answer_of
reorder_route_stations-others route_id other items s n =
    ground (arith, set_sequences-others route_id other items s.route_stations n)
