-- ===== src/Route/Positions.antt =====
-- How often a list of positions holds each of them, and what `setupCompleteRoute` leaves of a route.
use metro_backend.Prelude.{
  ℕ, ◌+◌, ◌<◌, ◌≡◌, refl, Bool, true, false, not, String, str_eq, eq_iff, List, [], ◌∷◌, map, keep,
  length, sort, insert_sorted, leb, ◌==◌, ltb, ◌&&◌, if◌then◌else◌, arith, is_ok,
}
use metro_backend.Route.{
  RouteStation, Network, Placement, no_stops, of_route, includes, consecutive, validation_of,
  validate_route_sequence, stored_rows, bulk_create, replace_stops, setup_complete_route,
}

unfoldable pub count : ℕ → List ℕ → ℕ
count k [] = 0
count k (x ∷ xs) = (if x == k then 1 else 0) + count k xs

count-insert_sorted : (k x : ℕ) (xs : List ℕ) → count k (insert_sorted x xs) ≡ count k (x ∷ xs)
unfolding count
count-insert_sorted k x [] = refl
count-insert_sorted k x (y ∷ ys) = ground (arith, count-insert_sorted k x ys)

pub count-sort : (k : ℕ) (xs : List ℕ) → count k (sort xs) ≡ count k xs
unfolding count
count-sort k [] = refl
count-sort k (x ∷ xs) = ground (arith, count-insert_sorted k x (sort xs), count-sort k xs)

pub count-consecutive :
    (k i : ℕ) (xs : List ℕ)
    → consecutive i xs ≡ true
    → count k xs ≡ (if ltb i k && leb k (i + length xs) then 1 else 0)
unfolding consecutive count
count-consecutive k i [] h = ground arith
count-consecutive k i (x ∷ xs) h = ground (arith, count-consecutive k (i + 1) xs)

-- What `setupCompleteRoute` checks: the route, the stations and the positions.
abbrev pub passes : String → List Placement → Network → Bool
passes route_id ps s =
    includes s.routes route_id
    && (length (keep (includes (map (λ (p : Placement). p.station_id) ps)) s.stations)
          == length (map (λ (p : Placement). p.station_id) ps)
        && consecutive 0 (sort (map (λ (p : Placement). p.sequence) ps)))

module _ (route_id : String) where
  keep-dropped :
      (rows : List RouteStation)
      → keep (of_route route_id) (keep (λ rs. not (of_route route_id rs)) rows) ≡ []
  keep-dropped [] = refl
  keep-dropped (r ∷ rows) = ground (arith, keep-dropped rows)

  keep-others :
      (other : String) (rows : List RouteStation)
      → str_eq route_id other ≡ false
      → keep (of_route other) (keep (λ rs. not (of_route route_id rs)) rows)
        ≡ keep (of_route other) rows
  keep-others other [] n = refl
  keep-others other (r ∷ rows) n = ground (
    arith,
    eq_iff r.route_id route_id,
    eq_iff r.route_id other,
    eq_iff route_id other,
    keep-others other rows n,
  )

  -- A setup of a route with at least one station is refused. Where the route, the stations and the
  -- positions pass the checks, the route has no stops afterwards; where they do not, the validation
  -- of the route answers as before. The stops of every other route are as they were.
  pub setup_complete_route-empties :
      (ps : List Placement) (s : Network) (other : String)
      → 0 < length ps
      → str_eq route_id other ≡ false
      → (is_ok (setup_complete_route route_id ps s).0 ≡ false)
        × (validate_route_sequence route_id (setup_complete_route route_id ps s).1
            ≡ (if passes route_id ps s then no_stops else validate_route_sequence route_id s))
        × (keep (of_route other) (setup_complete_route route_id ps s).1.route_stations
            ≡ keep (of_route other) s.route_stations)
  unfolding setup_complete_route replace_stops bulk_create stored_rows validate_route_sequence
      validation_of
  setup_complete_route-empties [] s other n d = absurd (omega (arith, n))
  setup_complete_route-empties (p ∷ ps) s other n d =
      ground (arith, keep-dropped s.route_stations, keep-others other s.route_stations d)
