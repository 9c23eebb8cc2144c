-- ===== src/Route/Search/Fuel.antt =====
-- The search ends within the edges of the network.
use metro_backend.Prelude.{
  ℕ, zero, suc, ◌+◌, ◌≤◌, ◌<◌, ◌≡◌, refl, subst, Bool, true, false, String, List, [], arith,
}
use metro_backend.Route.Segments.{Node}
use metro_backend.Route.Queue.{PriorityQueue, same_node_iff}
use metro_backend.Route.Search.{
  Edge, target, start_of, Search, Outcome, out_of_fuel, unreachable, arrived, visit, search, begin,
}
use metro_backend.Route.Search.Sound.{Among, IsSound}
use metro_backend.Route.Search.Visit.{visit-IsSound}
use metro_backend.Route.Search.Progress.{left, visit-IsProgress}
use metro_backend.Route.Search.Outcomes.{outcome_of-cases}
use metro_backend.Route.Search.Shortest.{begin-IsSound}
use metro_backend.Route.Search.Ends.{AmongNodes, weigh, weigh-le, is_settled, IsTimed}

-- The search has an answer.
abbrev pub is_done : {queue : PriorityQueue} → Outcome queue → Bool
is_done out_of_fuel = false
is_done unreachable = true
is_done (arrived e s) = true

module _ (queue : PriorityQueue) (edges : String → List Edge) (penalty : ℕ)
    (origin destination : String) (keys : List Node)
    (closed : (k : Node) (e : Edge)
      → AmongNodes k keys
      → Among e (edges k.station_id)
      → AmongNodes (target e) keys) where
  pub begin-IsTimed :
      AmongNodes (start_of origin) keys
      → IsTimed queue edges penalty keys 0 (begin queue edges penalty origin)
  begin-IsTimed inside = record {
    behind = λ k d g n. ground (arith, g);
    ahead = λ x n. omega arith;
    known = λ k d g.
        subst (λ k. AmongNodes k keys) ((same_node_iff (start_of origin) k).0 (ground (arith, g)))
          inside;
  }

  search-is_done :
      (fuel : ℕ) (a : Node) (time : ℕ) (s : Search queue)
      → left queue edges penalty origin destination keys closed s + queue.size s.waiting < fuel
      → IsSound queue edges penalty origin destination a [] s
      → IsTimed queue edges penalty keys time s
      → is_done (search queue edges penalty fuel destination s) ≡ true
  unfolding search
  search-is_done zero a time s f v t = ground arith
  search-is_done (suc fuel) a time s f v t =
      outcome_of-cases queue edges penalty destination s (λ o. is_done o ≡ true) _ (λ e. refl)
        (λ cur rest popped there. refl)
        λ cur rest popped on.
          let p =
            visit-IsProgress queue edges penalty origin destination keys closed a time s cur rest v
              t popped on in
          search-is_done fuel a cur.dist (visit queue edges penalty cur rest s)
            (omega (arith, p.less, f))
            (visit-IsSound queue edges penalty origin destination a s cur rest v popped on) p.timed

  -- With fuel for every edge of the network's states and one turn more, the search has an answer.
  pub begin-is_done :
      (fuel : ℕ)
      → AmongNodes (start_of origin) keys
      → weigh edges (λ k. false) keys + 1 < fuel
      → is_done (search queue edges penalty fuel destination (begin queue edges penalty origin))
        ≡ true
  begin-is_done fuel inside enough =
      search-is_done fuel (start_of origin) 0 (begin queue edges penalty origin)
        (omega (
          arith,
          enough,
          begun,
          queue.size-push (record { node = start_of origin; dist = 0 }) queue.empty,
          queue.size-empty,
        ))
        (begin-IsSound queue edges penalty origin destination) (begin-IsTimed inside)
    where
      begun :
          weigh edges (is_settled queue edges penalty (begin queue edges penalty origin)) keys
          ≤ weigh edges (λ k. false) keys
      begun = weigh-le edges (λ k. false) _ keys (λ k h. cc)
