-- ===== src/Route/Graph/Neighbors.antt =====
-- The neighbours of a station against the stops of a route.
use metro_backend.Prelude.{
  ℕ, ◌≤◌, ◌≡◌, ◌↔◌, ◌⊎◌, inl, inr, refl, ap, String, List, [], ◌∷◌, leb, arith, Bool-cases,
}
use metro_backend.Route.{RouteStation}
use metro_backend.Route.Search.{Edge}
use metro_backend.Route.Search.Sound.{Among}
use metro_backend.Route.Graph.{Stop, sort_stops, insert_stop, links_between, edges_of, neighbors_of}
use metro_backend.Route.Graph.Links.{Linked, neighbors_of-links}
use metro_backend.Route.Graph.Groups.{stops_of_route, links-route}

-- The stop is one of these.
abbrev pub AmongStops : Stop → List Stop → Type 0
AmongStops s [] = ⊥
AmongStops s (x ∷ xs) = (s ≡ x) ⊎ AmongStops s xs

-- Two stops of the list, one after the other: no stop lies between their sequences.
pub record IsNext (xs : List Stop) (a b : String) : Type 0 where
  pub low : Stop
  pub high : Stop
  pub low_in : AmongStops low xs
  pub high_in : AmongStops high xs
  pub order : low.sequence ≤ high.sequence
  pub ends :
      ((a ≡ low.station_id) × (b ≡ high.station_id))
      ⊎ ((a ≡ high.station_id) × (b ≡ low.station_id))
  pub between :
      (u : Stop) → AmongStops u xs → (u.sequence ≤ low.sequence) ⊎ (high.sequence ≤ u.sequence)

AtLeast : ℕ → List Stop → Type 0
AtLeast n xs = (u : Stop) → AmongStops u xs → n ≤ u.sequence

IsSorted : List Stop → Type 0
IsSorted [] = Unit
IsSorted (x ∷ xs) = AtLeast x.sequence xs × IsSorted xs

insert-among :
    (s x : Stop) (xs : List Stop) → AmongStops s (insert_stop x xs) ↔ ((s ≡ x) ⊎ AmongStops s xs)
unfolding insert_stop
insert-among s x [] = (λ m. m, λ m. m)
insert-among s x (y ∷ ys) = elim (Bool-cases (leb x.sequence y.sequence)) [
  | inl low ↦ rw low (λ m. m, λ m. m)
  | inr high ↦ rw high (ground (arith, insert-among s x ys))
]

sort-among : (s : Stop) (xs : List Stop) → AmongStops s (sort_stops xs) ↔ AmongStops s xs
unfolding sort_stops
sort-among s [] = (λ m. m, λ m. m)
sort-among s (x ∷ xs) = ground (arith, insert-among s x (sort_stops xs), sort-among s xs)

insert_stop-IsSorted : (x : Stop) (xs : List Stop) → IsSorted xs → IsSorted (insert_stop x xs)
unfolding insert_stop IsSorted AtLeast
insert_stop-IsSorted x [] h = (λ u m. elim m [ ], tt)
insert_stop-IsSorted x (y ∷ ys) h = elim (Bool-cases (leb x.sequence y.sequence)) [
  | inl low ↦ rw low (
    λ u m. elim m [
      | inl this ↦ ground (arith, this, low)
      | inr later ↦ ground (arith, low, h.0 u later)
    ],
    h,
  )
  | inr high ↦ rw high (
    λ u m. elim ((insert-among u x ys).0 m) [
      | inl this ↦ ground (arith, this, high)
      | inr later ↦ h.0 u later
    ],
    insert_stop-IsSorted x ys h.1,
  )
]

sort_stops-IsSorted : (xs : List Stop) → IsSorted (sort_stops xs)
unfolding sort_stops
sort_stops-IsSorted [] = unfold IsSorted in tt
sort_stops-IsSorted (x ∷ xs) = insert_stop-IsSorted x (sort_stops xs) (sort_stops-IsSorted xs)

Linked-IsNext :
    (r a : String) (e : Edge) (xs : List Stop)
    → IsSorted xs
    → Linked a e (links_between r xs)
    → IsNext xs a e.to
unfolding links_between IsSorted AtLeast
Linked-IsNext r a e [] h m = elim m [ ]
Linked-IsNext r a e (x ∷ []) h m = elim m [ ]
Linked-IsNext r a e (x ∷ y ∷ rest) h m = elim m [
  | inl (from, eq) ↦ first (inl (from, ap (λ (e : Edge). e.to) eq))
  | inr later ↦ elim later [
    | inl (from, eq) ↦ first (inr (from, ap (λ (e : Edge). e.to) eq))
    | inr more ↦ after (Linked-IsNext r a e (y ∷ rest) h.1 more)
  ]
]
  where
    first :
        ((a ≡ x.station_id) × (e.to ≡ y.station_id)) ⊎ ((a ≡ y.station_id) × (e.to ≡ x.station_id))
        → IsNext (x ∷ y ∷ rest) a e.to
    first ends = record {
      low = x;
      high = y;
      low_in = inl refl;
      high_in = inr (inl refl);
      order = h.0 y (inl refl);
      ends = ends;
      between = λ u i. elim i [
        | inl this ↦ inl (ground (arith, this))
        | inr others ↦ elim others [
          | inl this ↦ inr (ground (arith, this))
          | inr more ↦ inr (h.1.0 u more)
        ]
      ];
    }

    after : IsNext (y ∷ rest) a e.to → IsNext (x ∷ y ∷ rest) a e.to
    after n = record {
      low = n.low;
      high = n.high;
      low_in = inr n.low_in;
      high_in = inr n.high_in;
      order = n.order;
      ends = n.ends;
      between = λ u i. elim i [
        | inl this ↦ inl (ground (arith, this, h.0 n.low n.low_in))
        | inr others ↦ n.between u others
      ];
    }

-- An edge of a station leads along its route, in the one direction or the other, between two stops of
-- that route in the rows with no stop of the route between their sequences.
pub neighbors_of-IsNext :
    (rows : List RouteStation) (a : String) (e : Edge)
    → Among e (edges_of (neighbors_of rows) a)
    → IsNext (stops_of_route e.route_id rows) a e.to
neighbors_of-IsNext rows a e m =
    let xs = stops_of_route e.route_id rows in
    let n =
      Linked-IsNext e.route_id a e (sort_stops xs) (sort_stops-IsSorted xs)
        (links-route rows a e ((neighbors_of-links rows a e).0 m)) in
    record {
      low = n.low;
      high = n.high;
      low_in = (sort-among n.low xs).0 n.low_in;
      high_in = (sort-among n.high xs).0 n.high_in;
      order = n.order;
      ends = n.ends;
      between = λ u i. n.between u ((sort-among u xs).1 i);
    }
