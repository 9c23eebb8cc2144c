-- ===== src/Route/Segments.antt =====
-- The segments of `findShortestPathWithTransfers`: what it makes of the states that the search has
-- gone through, the origin without a route and then each station with the route that led there.
use metro_backend.Prelude.{
  ℕ, ◌+◌, ◌≡◌, ◌∙◌, refl, ap, sym, Bool, true, false, not, ◌&&◌, String, str_eq, Option, none, some,
  List, [], ◌∷◌, ◌++◌, map, keep, if◌then◌else◌, inl, inr, Bool-cases,
}

pub record Node : Type 0 where
  pub station_id : String
  pub route_id : Option String

pub record Segment : Type 0 where
  pub route_id : Option String
  pub stations : List String

-- `===` on route ids.
abbrev pub same_route : Option String → Option String → Bool
same_route none none = true
same_route none (some b) = false
same_route (some a) none = false
same_route (some a) (some b) = str_eq a b

abbrev pub is_route : Option String → Bool
is_route none = false
is_route (some a) = true

abbrev pub segment_of : Node → Segment
segment_of node = record { route_id = node.route_id; stations = node.station_id ∷ [] }

-- A node joins the last segment, or begins one.
unfoldable pub add_node : List Segment → Node → List Segment
add_node [] node = segment_of node ∷ []
add_node (last ∷ []) node =
    if same_route last.route_id node.route_id
    then record last { stations = last.stations ++ node.station_id ∷ [] } ∷ []
    else last ∷ segment_of node ∷ []
add_node (seg ∷ next ∷ rest) node = seg ∷ add_node (next ∷ rest) node

unfoldable pub collapse : List Segment → List Node → List Segment
collapse segments [] = segments
collapse segments (node ∷ nodes) = collapse (add_node segments node) nodes

-- The cleanup: the segments without a route are left out.
unfoldable pub cleaned : List Segment → List Segment
cleaned = keep (λ seg. is_route seg.route_id)

-- The number of changes between two routes along the path.
unfoldable pub transfers : List Node → ℕ
transfers [] = 0
transfers (node ∷ []) = 0
transfers (before ∷ node ∷ rest) =
    (if is_route before.route_id
        && (is_route node.route_id && not (same_route before.route_id node.route_id))
      then 1
      else 0)
    + transfers (node ∷ rest)

unfoldable pub stations_of : List Segment → List String
stations_of [] = []
stations_of (seg ∷ rest) = seg.stations ++ stations_of rest

++-assoc : (a b c : List String) → (a ++ b) ++ c ≡ a ++ (b ++ c)
++-assoc [] b c = refl
++-assoc (x ∷ a) b c = ap (λ r. x ∷ r) (++-assoc a b c)

++-none : (a : List String) → a ++ [] ≡ a
++-none [] = refl
++-none (x ∷ a) = ap (λ r. x ∷ r) (++-none a)

stations_of-add_node :
    (segs : List Segment) (node : Node)
    → stations_of (add_node segs node) ≡ stations_of segs ++ node.station_id ∷ []
unfolding add_node stations_of
stations_of-add_node [] node = refl
stations_of-add_node (last ∷ []) node = elim (Bool-cases (same_route last.route_id node.route_id)) [
  | inl e ↦ rw e (rw (++-none last.stations, ++-none (last.stations ++ node.station_id ∷ [])) refl)
  | inr e ↦ rw (e, ++-none last.stations) refl
]
stations_of-add_node (seg ∷ next ∷ rest) node =
    ap (λ r. seg.stations ++ r) (stations_of-add_node (next ∷ rest) node)
    ∙ sym (++-assoc seg.stations (stations_of (next ∷ rest)) (node.station_id ∷ []))

-- The segments before the cleanup hold every station of the path, in its order.
pub stations_of-collapse :
    (segs : List Segment) (path : List Node)
    → stations_of (collapse segs path) ≡ stations_of segs ++ map (λ (n : Node). n.station_id) path
unfolding collapse
stations_of-collapse segs [] = sym (++-none (stations_of segs))
stations_of-collapse segs (node ∷ path) =
    stations_of-collapse (add_node segs node) path
    ∙ ap (λ r. r ++ map (λ (n : Node). n.station_id) path) (stations_of-add_node segs node)
    ∙ ++-assoc (stations_of segs) (node.station_id ∷ []) (map (λ (n : Node). n.station_id) path)
