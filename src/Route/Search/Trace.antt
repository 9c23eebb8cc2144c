-- ===== src/Route/Search/Trace.antt =====
-- What the map `prev` keeps: the last edge of a walk of the kept distance.
use metro_backend.Prelude.{
  ℕ, ◌+◌, ◌≤◌, ◌≡◌, inl, inr, refl, sym, subst, ◌∙◌, true, false, String, Option, none, some, List,
  arith, Bool-cases,
}
use metro_backend.Route.Segments.{Node}
use metro_backend.Route.Queue.{Entry, PriorityQueue, same_node, same_node_iff}
use metro_backend.Route.Search.{Edge, target, start_of, Search, is_nearer, cost, relax, begin}
use metro_backend.Route.Search.Sound.{Among}
use metro_backend.Route.Search.Relax.{IsCurrent, relax-IsCurrent}

module _ (queue : PriorityQueue) (edges : String → List Edge) (penalty : ℕ) where
  -- The state was reached over an edge from another, whose distance is settled.
  pub record IsReached (s : Search queue) (before k : Node) (d : ℕ) : Type 0 where
    pub from : ℕ
    pub edge : Edge
    pub among : Among edge (edges before.station_id)
    pub leads : k ≡ target edge
    pub adds : d ≡ from + cost queue edges penalty before edge
    pub dist : s.dist before ≡ some from
    pub gone : queue.count (record { node = before; dist = from }) s.waiting ≡ 0

  abbrev pub Traced : String → Search queue → Node → ℕ → Option Node → Type 0
  Traced origin s k d none = (k ≡ start_of origin) × (d ≡ 0)
  Traced origin s k d (some before) = IsReached s before k d

  pub record IsTraced (origin : String) (s : Search queue) : Type 0 where
    pub valid : queue.IsValid s.waiting
    pub traced : (k : Node) (d : ℕ) → s.dist k ≡ some d → Traced origin s k d (s.prev k)

  module _ (origin destination : String) where
    pub begin-IsTraced : IsTraced origin (begin queue edges penalty origin)
    begin-IsTraced = record {
      valid = queue.push-IsValid _ queue.empty queue.empty-IsValid;
      traced = λ k d g.
          let same : same_node (start_of origin) k ≡ true = ground (arith, g) in
          (sym ((same_node_iff (start_of origin) k).0 same), ground (arith, g, same));
    }

    module _ (cur : Node) (d : ℕ) (e : Edge) (s : Search queue)
        (c : IsCurrent queue edges penalty origin destination cur d s)
        (m : Among e (edges cur.station_id))
        (behind : (k : Node) (n : ℕ)
          → s.dist k ≡ some n
          → queue.count (record { node = k; dist = n }) s.waiting ≡ 0
          → n ≤ d)
        (t : IsTraced origin s) where
      -- The source of an edge that is kept is settled, so it is not the state that becomes nearer.
      kept :
          (k : Node) (n : ℕ) (o : Option Node)
          → is_nearer (d + cost queue edges penalty cur e) (s.dist (target e)) ≡ true
          → Traced origin s k n o
          → Traced origin (relax queue edges penalty cur d e s) k n o
      unfolding relax
      kept k n none h r = r
      kept k n (some before) h r =
          let nd = d + cost queue edges penalty cur e in
          let other : same_node (target e) before ≡ false =
            ground
              (arith, h, r.dist, r.gone, behind before r.from, same_node_iff (target e) before) in
          rw h (record {
            from = r.from;
            edge = r.edge;
            among = r.among;
            leads = r.leads;
            adds = r.adds;
            dist = rw other r.dist;
            gone = ground (
              arith,
              r.gone,
              other,
              queue.count-push (record { node = before; dist = r.from })
                  (record { node = target e; dist = nd }) s.waiting t.valid,
            );
          })

      new_one :
          is_nearer (d + cost queue edges penalty cur e) (s.dist (target e)) ≡ true
          → (k : Node) → target e ≡ k
          → IsReached
              (relax queue edges penalty cur d e s)
              cur
              k
              (d + cost queue edges penalty cur e)
      new_one h k leads =
          let c2 = relax-IsCurrent queue edges penalty origin destination cur d e s t.valid c in
          record {
            from = d;
            edge = e;
            among = m;
            leads = sym leads;
            adds = refl;
            dist = c2.dist;
            gone = c2.popped;
          }

      lowered_at :
          is_nearer (d + cost queue edges penalty cur e) (s.dist (target e)) ≡ true
          → (k : Node)
          → let r = relax queue edges penalty cur d e s in
            (queue.IsValid r.waiting)
            × ((same_node (target e) k ≡ true
                  → (r.dist k ≡ some (d + cost queue edges penalty cur e)) × (r.prev k ≡ some cur))
                × (same_node (target e) k ≡ false → (r.dist k ≡ s.dist k) × (r.prev k ≡ s.prev k)))
      unfolding relax
      lowered_at h k = rw h (
        queue.push-IsValid _ s.waiting t.valid,
        (λ same. rw same (refl, refl), λ other. rw other (refl, refl)),
      )

      lowered :
          is_nearer (d + cost queue edges penalty cur e) (s.dist (target e)) ≡ true
          → (k : Node) (n : ℕ) → (relax queue edges penalty cur d e s).dist k ≡ some n
          → Traced origin
              (relax queue edges penalty cur d e s)
              k
              n
              ((relax queue edges penalty cur d e s).prev k)
      lowered h k n g = elim (Bool-cases (same_node (target e) k)) [
        | inl same ↦
            let (now, before) = (lowered_at h k).1.0 same in
            let num : d + cost queue edges penalty cur e ≡ n = ground (arith, now, g) in
            subst (λ o. Traced origin (relax queue edges penalty cur d e s) k n o) (sym before)
              (subst (λ n. IsReached (relax queue edges penalty cur d e s) cur k n) num
                (new_one h k ((same_node_iff (target e) k).0 same)))
        | inr other ↦
            let (now, before) = (lowered_at h k).1.1 other in
            subst (λ o. Traced origin (relax queue edges penalty cur d e s) k n o) (sym before)
              (kept k n (s.prev k) h (t.traced k n (sym now ∙ g)))
      ]

      pub relax-IsTraced : IsTraced origin (relax queue edges penalty cur d e s)
      relax-IsTraced =
          elim (Bool-cases (is_nearer (d + cost queue edges penalty cur e) (s.dist (target e)))) [
            | inl h ↦ record { valid = (lowered_at h cur).0; traced = lowered h }
            | inr h ↦ unfold relax in rw h t
          ]

    -- Taking entries off keeps what is settled.
    pub popped-IsTraced :
        (s : Search queue) (rest : queue.Q)
        → queue.IsValid rest
        → ((x : Entry) → queue.count x rest ≤ queue.count x s.waiting)
        → IsTraced origin s
        → IsTraced origin (record s { waiting = rest })
    popped-IsTraced s rest v le t = record {
      valid = v;
      traced = λ k d g. keep k d (s.prev k) (t.traced k d g);
    }
      where
        keep :
            (k : Node) (d : ℕ) (o : Option Node)
            → Traced origin s k d o
            → Traced origin (record s { waiting = rest }) k d o
        keep k d none r = r
        keep k d (some before) r = record {
          from = r.from;
          edge = r.edge;
          among = r.among;
          leads = r.leads;
          adds = r.adds;
          dist = r.dist;
          gone = omega (arith, r.gone, le (record { node = before; dist = r.from }));
        }
