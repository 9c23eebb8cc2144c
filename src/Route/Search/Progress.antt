-- ===== src/Route/Search/Progress.antt =====
-- What a turn of the search's loop leaves to do.
use metro_backend.Prelude.{
  ℕ, ◌+◌, ◌≤◌, ◌<◌, ◌≡◌, inl, inr, refl, ◌∙◌, true, false, ◌&&◌, String, str_eq, Option, none, some,
  List, [], ◌∷◌, arith, Bool-cases, length,
}
use metro_backend.Route.Segments.{Node}
use metro_backend.Route.Queue.{Entry, PriorityQueue, same_entry, same_entry_iff, bit}
use metro_backend.Route.Search.{Edge, target, Search, is_current, relax, relax_all, visit}
use metro_backend.Route.Search.Sound.{Among, IsSound}
use metro_backend.Route.Search.Relax.{IsCurrent, relax-IsSound, relax-IsCurrent}
use metro_backend.Route.Search.Visit.{current_dist, taken-IsCurrent, taken-IsSound}
use metro_backend.Route.Search.Ends.{
  AmongNodes, weigh, weigh-same, weigh-le, weigh-drop, is_settled, IsTimed, relax-IsTimed,
  relax-is_settled, size-relax,
}

module _ (queue : PriorityQueue) (edges : String → List Edge) (penalty : ℕ)
    (origin destination : String) (keys : List Node)
    (closed : (k : Node) (e : Edge)
      → AmongNodes k keys
      → Among e (edges k.station_id)
      → AmongNodes (target e) keys) where
  abbrev pub left : Search queue → ℕ
  left s = weigh edges (is_settled queue edges penalty s) keys

  -- Relaxing keeps the time, settles nothing, and adds at most an entry for each edge.
  pub record IsStep (d n : ℕ) (s r : Search queue) : Type 0 where
    pub timed : IsTimed queue edges penalty keys d r
    pub same : (k : Node) → is_settled queue edges penalty r k ≡ is_settled queue edges penalty s k
    pub size : queue.size r.waiting ≤ queue.size s.waiting + n

  relax_all-IsStep :
      (cur : Node) (d : ℕ) (todo : List Edge) (s : Search queue)
      → ((e : Edge) → Among e todo → Among e (edges cur.station_id))
      → IsSound queue edges penalty origin destination cur todo s
      → IsCurrent queue edges penalty origin destination cur d s
      → IsTimed queue edges penalty keys d s
      → IsStep d (length todo) s (relax_all queue edges penalty cur d todo s)
  unfolding relax_all
  relax_all-IsStep cur d [] s within v c t = record {
    timed = t;
    same = λ k. refl;
    size = omega arith;
  }
  relax_all-IsStep cur d (e ∷ todo) s within v c t =
      let m = within e (inl refl) in
      let s2 = relax queue edges penalty cur d e s in
      let rest =
        relax_all-IsStep cur d todo s2 (λ x a. within x (inr a))
          (relax-IsSound queue edges penalty origin destination cur d e todo s v c m)
          (relax-IsCurrent queue edges penalty origin destination cur d e s v.valid c)
          (relax-IsTimed queue edges penalty origin destination keys closed cur d e todo s v c m
            t) in
      record {
        timed = rest.timed;
        same = λ k.
            rest.same k
            ∙ relax-is_settled queue edges penalty origin destination keys closed cur d e todo s v c
                m t k;
        size = omega (
          arith,
          rest.size,
          size-relax queue edges penalty origin destination keys closed cur d e todo s v c m t,
        );
      }

  module _ (a : Node) (time : ℕ) (s : Search queue) (cur : Entry) (rest : queue.Q)
      (v : IsSound queue edges penalty origin destination a [] s)
      (t : IsTimed queue edges penalty keys time s)
      (popped : queue.pop s.waiting ≡ some (cur, rest)) where
    pub popped_counts :
        (x : Entry) → queue.count x s.waiting ≡ queue.count x rest + bit (same_entry cur x)
    popped_counts x = queue.count-pop x cur s.waiting rest v.valid popped

    pub popped-IsTimed : IsTimed queue edges penalty keys cur.dist (record s { waiting = rest })
    popped-IsTimed = record {
      behind = λ k d g n. ground (
        arith,
        g,
        n,
        popped_counts (record { node = k; dist = d }),
        popped_counts cur,
        same_entry_iff cur cur,
        t.behind k d,
        t.ahead cur,
      );
      ahead = λ x n.
          queue.pop-le x cur s.waiting rest v.valid popped (omega (arith, popped_counts x, n));
      known = t.known;
    }

    -- What was settled stays so when an entry is popped.
    popped_settled :
        (k : Node)
        → is_settled queue edges penalty s k ≡ true
        → is_settled queue edges penalty (record s { waiting = rest }) k ≡ true
    popped_settled k h = go (s.dist k) refl h
      where
        go :
            (o : Option ℕ)
            → s.dist k ≡ o
            → is_settled queue edges penalty s k ≡ true
            → is_settled queue edges penalty (record s { waiting = rest }) k ≡ true
        go none g h = ground (arith, g, h)
        go (some d) g h = ground (arith, g, h, popped_counts (record { node = k; dist = d }))

    -- One turn of the loop leaves less to do: fewer entries, or fewer edges of unsettled states.
    pub record IsProgress (r : Search queue) : Type 0 where
      pub timed : IsTimed queue edges penalty keys cur.dist r
      pub less : left r + queue.size r.waiting < left s + queue.size s.waiting

    skipped-IsProgress :
        is_current (s.dist cur.node) cur.dist ≡ false → IsProgress (record s { waiting = rest })
    skipped-IsProgress stale = record {
      timed = popped-IsTimed;
      less = omega (
        arith,
        weigh-le edges (is_settled queue edges penalty s)
            (is_settled queue edges penalty (record s { waiting = rest })) keys popped_settled,
        queue.size-pop cur s.waiting rest popped,
      );
    }

    taken-IsProgress :
        s.dist cur.node ≡ some cur.dist
        → str_eq cur.node.station_id destination ≡ false
        → IsProgress (
            relax_all queue edges penalty cur.node cur.dist
              (edges cur.node.station_id)
              (record s { waiting = rest }))
    taken-IsProgress now away =
        let settled = is_settled queue edges penalty (record s { waiting = rest }) in
        let step =
          relax_all-IsStep cur.node cur.dist (edges cur.node.station_id)
            (record s { waiting = rest }) (λ e m. m)
            (taken-IsSound queue edges penalty origin destination a s cur rest v popped now away)
            (taken-IsCurrent queue edges penalty origin destination a s cur rest v popped now)
            popped-IsTimed in
        record {
          timed = step.timed;
          less = omega (
            arith,
            step.size,
            weigh-same edges _ settled keys step.same,
            weigh-drop edges (is_settled queue edges penalty s) settled keys cur.node popped_settled
                (t.known cur.node cur.dist now)
                (ground (arith, now, popped_counts cur, same_entry_iff cur cur))
                (ground (
                  arith,
                  now,
                  (taken-IsCurrent queue edges penalty origin destination a s cur rest v popped
                      now).popped,
                )),
            queue.size-pop cur s.waiting rest popped,
          );
        }

    pub visit-IsProgress :
        is_current (s.dist cur.node) cur.dist && str_eq cur.node.station_id destination ≡ false
        → IsProgress (visit queue edges penalty cur rest s)
    unfolding visit
    visit-IsProgress on = elim (Bool-cases (is_current (s.dist cur.node) cur.dist)) [
      | inr stale ↦ rw stale (skipped-IsProgress stale)
      | inl fresh ↦ rw fresh (
          taken-IsProgress (current_dist (s.dist cur.node) cur.dist fresh)
            (ground (arith, on, fresh)))
    ]
