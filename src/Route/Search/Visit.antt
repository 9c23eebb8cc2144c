-- ===== src/Route/Search/Visit.antt =====
-- A pop and what follows it keep the invariant.
use metro_backend.Prelude.{
  ℕ, ◌+◌, ◌≡◌, inl, inr, sym, subst, true, false, ◌&&◌, String, str_eq, Option, some, List, [],
  arith, Bool-cases,
}
use metro_backend.Route.Segments.{Node}
use metro_backend.Route.Queue.{
  Entry, PriorityQueue, same_node, same_node_iff, same_entry, same_entry_iff, bit,
}
use metro_backend.Route.Search.{Edge, Search, is_current, visit}
use metro_backend.Route.Search.Sound.{Among, IsSound}
use metro_backend.Route.Search.Relax.{IsCurrent, relax_all-IsSound}

pub current_dist : (o : Option ℕ) (d : ℕ) → is_current o d ≡ true → o ≡ some d
current_dist o d h = ground (arith, h)

module _ (queue : PriorityQueue) (edges : String → List Edge) (penalty : ℕ) where
  module _ (origin destination : String) where
    -- With no edges to relax it does not matter which state is the current one.
    any_current :
        (a b : Node) (todo : List Edge) (s : Search queue)
        → IsSound queue edges penalty origin destination a [] s
        → IsSound queue edges penalty origin destination b todo s
    any_current a b todo s v = record {
      valid = v.valid;
      once = v.once;
      walk = v.walk;
      entry = v.entry;
      source = v.source;
      settled = λ k d e g n m. elim (v.settled k d e g n m) [
        | inl r ↦ inl r
        | inr (eq, never) ↦ absurd never
      ];
      elsewhere = v.elsewhere;
    }

    module _ (a : Node) (s : Search queue) (cur : Entry) (rest : queue.Q)
        (v : IsSound queue edges penalty origin destination a [] s)
        (popped : queue.pop s.waiting ≡ some (cur, rest)) where
      counts : (x : Entry) → queue.count x s.waiting ≡ queue.count x rest + bit (same_entry cur x)
      counts x = queue.count-pop x cur s.waiting rest v.valid popped

      pub taken-IsCurrent :
          s.dist cur.node ≡ some cur.dist
          → IsCurrent queue edges penalty origin destination cur.node cur.dist
              (record s { waiting = rest })
      taken-IsCurrent now = record {
        dist = now;
        popped = ground (arith, counts cur, v.once cur, same_entry_iff cur cur);
      }

      skipped-IsSound :
          is_current (s.dist cur.node) cur.dist ≡ false
          → IsSound queue edges penalty origin destination a [] (record s { waiting = rest })
      skipped-IsSound stale = record {
        valid = queue.pop-IsValid cur s.waiting rest v.valid popped;
        once = λ x. omega (arith, counts x, v.once x);
        walk = v.walk;
        entry = λ x n. v.entry x (omega (arith, counts x, n));
        source = v.source;
        settled = λ k d e g n m. elim (v.settled k d e g (untouched k d g n) m) [
          | inl r ↦ inl (record { over = r.over; dist = r.dist; le = r.le })
          | inr p ↦ inr p
        ];
        elsewhere = λ k d g n. v.elsewhere k d g (untouched k d g n);
      }
        where
          untouched :
              (k : Node) (d : ℕ)
              → s.dist k ≡ some d
              → queue.count (record { node = k; dist = d }) rest ≡ 0
              → queue.count (record { node = k; dist = d }) s.waiting ≡ 0
          untouched k d g n =
              ground (
                arith,
                counts (record { node = k; dist = d }),
                same_node_iff cur.node k,
                g,
                n,
                stale,
              )

      pub taken-IsSound :
          s.dist cur.node ≡ some cur.dist
          → str_eq cur.node.station_id destination ≡ false
          → IsSound queue edges penalty origin destination cur.node
              (edges cur.node.station_id)
              (record s { waiting = rest })
      taken-IsSound now away = record {
        valid = queue.pop-IsValid cur s.waiting rest v.valid popped;
        once = λ x. omega (arith, counts x, v.once x);
        walk = v.walk;
        entry = λ x n. v.entry x (omega (arith, counts x, n));
        source = v.source;
        settled = λ k d e g n m. elim (Bool-cases (same_node cur.node k)) [
          | inl same ↦
              let eq = (same_node_iff cur.node k).0 same in
              inr (sym eq, subst (λ k. Among e (edges k.station_id)) (sym eq) m)
          | inr other ↦
              elim (v.settled k d e g
                (ground (arith, counts (record { node = k; dist = d }), other, n)) m) [
                  | inl r ↦ inl (record { over = r.over; dist = r.dist; le = r.le })
                  | inr (eq, never) ↦ absurd never
                ]
        ];
        elsewhere = λ k d g n. elim (Bool-cases (same_node cur.node k)) [
          | inl same ↦ let eq = (same_node_iff cur.node k).0 same in ground (arith, eq, away)
          | inr other ↦
              v.elsewhere k d g (ground (arith, counts (record { node = k; dist = d }), other, n))
        ];
      }

      pub visit-IsSound :
          is_current (s.dist cur.node) cur.dist && str_eq cur.node.station_id destination ≡ false
          → IsSound queue edges penalty origin destination a []
              (visit queue edges penalty cur rest s)
      unfolding visit
      visit-IsSound on = elim (Bool-cases (is_current (s.dist cur.node) cur.dist)) [
        | inr stale ↦ rw stale (skipped-IsSound stale)
        | inl fresh ↦
            let now : s.dist cur.node ≡ some cur.dist =
              current_dist (s.dist cur.node) cur.dist fresh in
            let w = taken-IsSound now (ground (arith, on, fresh)) in
            rw fresh (
              any_current cur.node a [] _ (
                relax_all-IsSound queue edges penalty origin destination cur.node cur.dist
                  (edges cur.node.station_id) (record s { waiting = rest }) (λ e m. m) w
                  (taken-IsCurrent now)))
      ]
