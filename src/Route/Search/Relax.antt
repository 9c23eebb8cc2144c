-- ===== src/Route/Search/Relax.antt =====
-- The relaxing of one edge, and of all edges of the current state, keeps the invariant.
use metro_backend.Prelude.{
  ℕ, ◌+◌, ◌≡◌, inl, inr, refl, subst, true, false, String, Option, none, some, List, [], ◌∷◌, arith,
  Bool-cases,
}
use metro_backend.Route.Segments.{Node}
use metro_backend.Route.Queue.{Entry, PriorityQueue, same_node, same_node_iff, same_entry_iff}
use metro_backend.Route.Search.{Edge, target, Search, set, is_nearer, cost, relax, relax_all}
use metro_backend.Route.Search.Sound.{Among, Walk, ride, IsRelaxed, IsSound}

module _ (queue : PriorityQueue) (edges : String → List Edge) (penalty : ℕ) where
  module _ (origin destination : String) (cur : Node) (d : ℕ) where
    -- The current state keeps its distance, and no entry has it.
    pub record IsCurrent (s : Search queue) : Type 0 where
      pub dist : s.dist cur ≡ some d
      pub popped : queue.count (record { node = cur; dist = d }) s.waiting ≡ 0

    -- An entry of the new, lower distance is not there yet.
    nearer-fresh :
        (e : Edge) (todo : List Edge) (s : Search queue) (nd : ℕ)
        → IsSound queue edges penalty origin destination cur todo s
        → is_nearer nd (s.dist (target e)) ≡ true
        → queue.count (record { node = target e; dist = nd }) s.waiting ≡ 0
    nearer-fresh e todo s nd v h =
        ground (arith, v.entry (record { node = target e; dist = nd }), h)

    lowered-IsRelaxed :
        (e : Edge) (s : Search queue) (k : Node) (d2 : ℕ) (e2 : Edge) (nd : ℕ)
        (prev : Node → Option Node) (waiting : queue.Q)
        → is_nearer nd (s.dist (target e)) ≡ true
        → IsRelaxed queue edges penalty s k d2 e2
        → IsRelaxed queue edges penalty
            (record { dist = set s.dist (target e) nd; prev = prev; waiting = waiting })
            k
            d2
            e2
    lowered-IsRelaxed e s k d2 e2 nd prev waiting h r =
        elim (Bool-cases (same_node (target e) (target e2))) [
          | inl same ↦
              let eq = (same_node_iff (target e) (target e2)).0 same in
              record {
                over = nd;
                dist = ground (arith, same);
                le = ground (arith, eq, h, r.dist, r.le);
              }
          | inr other ↦ record { over = r.over; dist = ground (arith, other, r.dist); le = r.le }
        ]

    nearer-IsSound :
        (e : Edge) (todo : List Edge) (s : Search queue)
        → IsSound queue edges penalty origin destination cur (e ∷ todo) s
        → IsCurrent s
        → Among e (edges cur.station_id)
        → is_nearer (d + cost queue edges penalty cur e) (s.dist (target e)) ≡ true
        → IsSound queue edges penalty origin destination cur todo
            (relax queue edges penalty cur d e s)
    unfolding relax
    nearer-IsSound e todo s v c m h =
        let nd = d + cost queue edges penalty cur e in
        let added : Entry = record { node = target e; dist = nd } in
        let fresh = nearer-fresh e (e ∷ todo) s nd v h in
        let counts = λ (x : Entry). queue.count-push x added s.waiting v.valid in
        rw h (record {
          valid = queue.push-IsValid added s.waiting v.valid;
          once = λ x. ground (arith, counts x, v.once x, fresh, same_entry_iff added x);
          walk = λ k d2 g. elim (Bool-cases (same_node (target e) k)) [
            | inl same ↦
                let num : nd ≡ d2 = ground (arith, same, g) in
                subst (λ k. Walk queue edges penalty origin k d2)
                  ((same_node_iff (target e) k).0 same)
                  (subst (λ n. Walk queue edges penalty origin (target e) n) num
                    (ride cur d e (v.walk cur d c.dist) m))
            | inr other ↦ v.walk k d2 (ground (arith, other, g))
          ];
          entry = λ x n. elim (Bool-cases (same_node (target e) x.node)) [
            | inl same ↦
                let eq = (same_node_iff (target e) x.node).0 same in
                (
                  nd,
                  (
                    ground (arith, same),
                    ground (arith, eq, h, counts x, n, v.entry x, same_entry_iff added x),
                  ),
                )
            | inr other ↦
                let (o, (there, le)) = v.entry x (ground (arith, other, counts x, n)) in
                (o, (ground (arith, other, there), le))
          ];
          source = ground (arith, v.source);
          settled = λ k d2 e2 g n a.
              let count2 = counts (record { node = k; dist = d2 }) in
              let other : same_node (target e) k ≡ false =
                ground (arith, g, n, count2, same_node_iff (target e) k) in
              let there : s.dist k ≡ some d2 = ground (arith, other, g) in
              let gone : queue.count (record { node = k; dist = d2 }) s.waiting ≡ 0 =
                omega (arith, count2, n) in
              elim (v.settled k d2 e2 there gone a) [
                | inl r ↦ inl (lowered-IsRelaxed e s k d2 e2 nd _ _ h r)
                | inr (eq, a2) ↦ elim a2 [
                  | inl this ↦
                      let same_d : d2 ≡ d = ground (arith, there, c.dist, eq) in
                      inl (record {
                        over = nd;
                        dist = ground (arith, this, same_node_iff (target e) (target e2));
                        le = rw (this, eq, same_d) (omega arith);
                      })
                  | inr later ↦ inr (eq, later)
                ]
              ];
          elsewhere = λ k d2 g n. ground (
            arith,
            g,
            n,
            counts (record { node = k; dist = d2 }),
            same_node_iff (target e) k,
            v.elsewhere k d2,
          );
        })

    kept-IsSound :
        (e : Edge) (todo : List Edge) (s : Search queue)
        → IsSound queue edges penalty origin destination cur (e ∷ todo) s
        → IsCurrent s
        → is_nearer (d + cost queue edges penalty cur e) (s.dist (target e)) ≡ false
        → IsSound queue edges penalty origin destination cur todo s
    kept-IsSound e todo s v c h = record {
      valid = v.valid;
      once = v.once;
      walk = v.walk;
      entry = v.entry;
      source = v.source;
      settled = λ k d2 e2 g n a. elim (v.settled k d2 e2 g n a) [
        | inl r ↦ inl r
        | inr (eq, a2) ↦ elim a2 [
          | inl this ↦
              let same_d : d2 ≡ d = ground (arith, g, c.dist, eq) in
              inl (not_nearer s k d2 e2 (rw (this, eq, same_d) h))
          | inr later ↦ inr (eq, later)
        ]
      ];
      elsewhere = v.elsewhere;
    }
      where
        not_nearer :
            (s : Search queue) (k : Node) (d2 : ℕ) (e2 : Edge)
            → is_nearer (d2 + cost queue edges penalty k e2) (s.dist (target e2)) ≡ false
            → IsRelaxed queue edges penalty s k d2 e2
        not_nearer s k d2 e2 h = go (s.dist (target e2)) refl
          where
            go : (o : Option ℕ) → s.dist (target e2) ≡ o → IsRelaxed queue edges penalty s k d2 e2
            go none g = ground (arith, g, h)
            go (some o) g = record { over = o; dist = g; le = ground (arith, g, h) }

    pub relax-IsCurrent :
        (e : Edge) (s : Search queue)
        → queue.IsValid s.waiting
        → IsCurrent s
        → IsCurrent (relax queue edges penalty cur d e s)
    unfolding relax
    relax-IsCurrent e s v c =
        let nd = d + cost queue edges penalty cur e in
        elim (Bool-cases (is_nearer nd (s.dist (target e)))) [
          | inl h ↦ rw h (record {
            dist = ground (arith, c.dist, h, same_node_iff (target e) cur);
            popped = ground (
              arith,
              c.popped,
              queue.count-push (record { node = cur; dist = d })
                  (record { node = target e; dist = nd }) s.waiting v,
            );
          })
          | inr h ↦ rw h c
        ]

    pub relax-IsSound :
        (e : Edge) (todo : List Edge) (s : Search queue)
        → IsSound queue edges penalty origin destination cur (e ∷ todo) s
        → IsCurrent s
        → Among e (edges cur.station_id)
        → IsSound queue edges penalty origin destination cur todo
            (relax queue edges penalty cur d e s)
    relax-IsSound e todo s v c m =
        elim (Bool-cases (is_nearer (d + cost queue edges penalty cur e) (s.dist (target e)))) [
          | inl h ↦ nearer-IsSound e todo s v c m h
          | inr h ↦ unfold relax in rw h (kept-IsSound e todo s v c h)
        ]

    pub relax_all-IsSound :
        (todo : List Edge) (s : Search queue)
        → ((e : Edge) → Among e todo → Among e (edges cur.station_id))
        → IsSound queue edges penalty origin destination cur todo s
        → IsCurrent s
        → IsSound queue edges penalty origin destination cur []
            (relax_all queue edges penalty cur d todo s)
    unfolding relax_all
    relax_all-IsSound [] s within v c = v
    relax_all-IsSound (e ∷ todo) s within v c =
        relax_all-IsSound todo (relax queue edges penalty cur d e s) (λ x a. within x (inr a))
          (relax-IsSound e todo s v c (within e (inl refl))) (relax-IsCurrent e s v.valid c)
