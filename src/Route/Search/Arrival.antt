-- ===== src/Route/Search/Arrival.antt =====
-- Where the search arrives, its maps trace a walk.
use metro_backend.Prelude.{
  ℕ, zero, suc, ◌≡◌, inl, inr, refl, true, false, ◌&&◌, String, str_eq, some, List, [], ◌∷◌, arith,
  Bool-cases,
}
use metro_backend.Route.Segments.{Node}
use metro_backend.Route.Queue.{Entry, PriorityQueue}
use metro_backend.Route.Search.{
  Edge, target, start_of, Search, Outcome, out_of_fuel, unreachable, arrived, is_current, relax,
  relax_all, visit, search, begin,
}
use metro_backend.Route.Search.Sound.{Among, IsSound}
use metro_backend.Route.Search.Relax.{IsCurrent, relax-IsSound, relax-IsCurrent}
use metro_backend.Route.Search.Visit.{current_dist, taken-IsCurrent, taken-IsSound, visit-IsSound}
use metro_backend.Route.Search.Ends.{AmongNodes, IsTimed, relax-IsTimed}
use metro_backend.Route.Search.Progress.{popped_counts, popped-IsTimed, visit-IsProgress}
use metro_backend.Route.Search.Outcomes.{outcome_of-cases}
use metro_backend.Route.Search.Shortest.{begin-IsSound}
use metro_backend.Route.Search.Fuel.{begin-IsTimed}
use metro_backend.Route.Search.Trace.{IsTraced, begin-IsTraced, relax-IsTraced, popped-IsTraced}

module _ (queue : PriorityQueue) (edges : String → List Edge) (penalty : ℕ)
    (origin destination : String) (keys : List Node)
    (closed : (k : Node) (e : Edge)
      → AmongNodes k keys
      → Among e (edges k.station_id)
      → AmongNodes (target e) keys) where
  -- An answer with a state has that state's distance, and traces every distance.
  pub record IsArrival (e : Entry) (s : Search queue) : Type 0 where
    pub dist : s.dist e.node ≡ some e.dist
    pub traces : IsTraced queue edges penalty origin s

  abbrev pub TracesArrival : Outcome queue → Type 0
  TracesArrival out_of_fuel = Unit
  TracesArrival unreachable = Unit
  TracesArrival (arrived e s) = IsArrival e s

  relax_all-IsTraced :
      (cur : Node) (d : ℕ) (todo : List Edge) (s : Search queue)
      → ((e : Edge) → Among e todo → Among e (edges cur.station_id))
      → IsSound queue edges penalty origin destination cur todo s
      → IsCurrent queue edges penalty origin destination cur d s
      → IsTimed queue edges penalty keys d s
      → IsTraced queue edges penalty origin s
      → IsTraced queue edges penalty origin (relax_all queue edges penalty cur d todo s)
  unfolding relax_all
  relax_all-IsTraced cur d [] s within v c t r = r
  relax_all-IsTraced cur d (e ∷ todo) s within v c t r =
      let m = within e (inl refl) in
      relax_all-IsTraced cur d todo (relax queue edges penalty cur d e s) (λ x a. within x (inr a))
        (relax-IsSound queue edges penalty origin destination cur d e todo s v c m)
        (relax-IsCurrent queue edges penalty origin destination cur d e s v.valid c)
        (relax-IsTimed queue edges penalty origin destination keys closed cur d e todo s v c m t)
        (relax-IsTraced queue edges penalty origin destination cur d e s c m t.behind r)

  module _ (a : Node) (time : ℕ) (s : Search queue) (cur : Entry) (rest : queue.Q)
      (v : IsSound queue edges penalty origin destination a [] s)
      (t : IsTimed queue edges penalty keys time s) (r : IsTraced queue edges penalty origin s)
      (popped : queue.pop s.waiting ≡ some (cur, rest)) where
    left-IsTraced : IsTraced queue edges penalty origin (record s { waiting = rest })
    left-IsTraced =
        popped-IsTraced queue edges penalty origin destination s rest
          (queue.pop-IsValid cur s.waiting rest v.valid popped)
          (λ x. omega (
            arith,
            popped_counts queue edges penalty origin destination keys closed a time s cur rest v t
                popped x,
          ))
          r

    visit-IsTraced :
        is_current (s.dist cur.node) cur.dist && str_eq cur.node.station_id destination ≡ false
        → IsTraced queue edges penalty origin (visit queue edges penalty cur rest s)
    unfolding visit
    visit-IsTraced on = elim (Bool-cases (is_current (s.dist cur.node) cur.dist)) [
      | inr stale ↦ rw stale left-IsTraced
      | inl fresh ↦
          let now = current_dist (s.dist cur.node) cur.dist fresh in
          rw fresh (
            relax_all-IsTraced cur.node cur.dist (edges cur.node.station_id)
              (record s { waiting = rest }) (λ e m. m)
              (taken-IsSound queue edges penalty origin destination a s cur rest v popped now
                (ground (arith, on, fresh)))
              (taken-IsCurrent queue edges penalty origin destination a s cur rest v popped now)
              (popped-IsTimed queue edges penalty origin destination keys closed a time s cur rest v
                t popped)
              left-IsTraced)
    ]

    arrived-IsArrival :
        is_current (s.dist cur.node) cur.dist && str_eq cur.node.station_id destination ≡ true
        → IsArrival cur (record s { waiting = rest })
    arrived-IsArrival there = record {
      dist = current_dist (s.dist cur.node) cur.dist (ground (arith, there));
      traces = left-IsTraced;
    }

  search-TracesArrival :
      (fuel : ℕ) (a : Node) (time : ℕ) (s : Search queue)
      → IsSound queue edges penalty origin destination a [] s
      → IsTimed queue edges penalty keys time s
      → IsTraced queue edges penalty origin s
      → TracesArrival (search queue edges penalty fuel destination s)
  unfolding search
  search-TracesArrival zero a time s v t r = tt
  search-TracesArrival (suc fuel) a time s v t r =
      outcome_of-cases queue edges penalty destination s TracesArrival _ (λ e. tt)
        (λ cur rest popped there. arrived-IsArrival a time s cur rest v t r popped there)
        λ cur rest popped on.
          search-TracesArrival fuel a cur.dist (visit queue edges penalty cur rest s)
            (visit-IsSound queue edges penalty origin destination a s cur rest v popped on)
            (visit-IsProgress queue edges penalty origin destination keys closed a time s cur rest v
              t popped on).timed
            (visit-IsTraced a time s cur rest v t r popped on)

  pub begin-TracesArrival :
      (fuel : ℕ)
      → AmongNodes (start_of origin) keys
      → TracesArrival
          (search queue edges penalty fuel destination (begin queue edges penalty origin))
  begin-TracesArrival fuel inside =
      search-TracesArrival fuel (start_of origin) 0 (begin queue edges penalty origin)
        (begin-IsSound queue edges penalty origin destination)
        (begin-IsTimed queue edges penalty origin destination keys closed inside)
        (begin-IsTraced queue edges penalty origin destination)
