-- ===== src/Route/Search/Ends.antt =====
-- How long the search runs: what is left of the edges, and the time that the distances keep.
use metro_backend.Prelude.{
  ℕ, ◌+◌, ◌≤◌, ◌<◌, ◌≡◌, ◌⊎◌, inl, inr, refl, subst, Bool, true, false, ◌==◌, String, Option, none,
  some, List, [], ◌∷◌, arith, Bool-cases, if◌then◌else◌, length,
}
use metro_backend.Route.Segments.{Node}
use metro_backend.Route.Queue.{
  Entry, PriorityQueue, same_node, same_node_iff, same_entry, same_entry_iff, bit,
}
use metro_backend.Route.Search.{Edge, target, Search, set, is_nearer, cost, relax}
use metro_backend.Route.Search.Sound.{Among, IsSound}
use metro_backend.Route.Search.Relax.{IsCurrent}

-- The state is one of these.
abbrev pub AmongNodes : Node → List Node → Type 0
AmongNodes k [] = ⊥
AmongNodes k (x ∷ xs) = (k ≡ x) ⊎ AmongNodes k xs

module _ (edges : String → List Edge) where
  -- The edges of the states that are not settled.
  unfoldable pub weigh : (Node → Bool) → List Node → ℕ
  weigh done [] = 0
  weigh done (k ∷ ks) = (if done k then 0 else length (edges k.station_id)) + weigh done ks

  pub weigh-same :
      (f g : Node → Bool) (ks : List Node) → ((k : Node) → f k ≡ g k) → weigh f ks ≡ weigh g ks
  unfolding weigh
  weigh-same f g [] h = refl
  weigh-same f g (k ∷ ks) h = rw (h k) (omega (arith, weigh-same f g ks h))

  pub weigh-le :
      (f g : Node → Bool) (ks : List Node)
      → ((k : Node) → f k ≡ true → g k ≡ true)
      → weigh g ks ≤ weigh f ks
  unfolding weigh
  weigh-le f g [] h = omega arith
  weigh-le f g (k ∷ ks) h = ground (arith, h k, weigh-le f g ks h)

  pub weigh-drop :
      (f g : Node → Bool) (ks : List Node) (c : Node)
      → ((k : Node) → f k ≡ true → g k ≡ true)
      → AmongNodes c ks
      → f c ≡ false
      → g c ≡ true
      → weigh g ks + length (edges c.station_id) ≤ weigh f ks
  unfolding weigh
  weigh-drop f g [] c h m p q = absurd m
  weigh-drop f g (k ∷ ks) c h (inl e) p q = ground (arith, weigh-le f g ks h, e, p, q)
  weigh-drop f g (k ∷ ks) c h (inr m) p q = ground (arith, h k, weigh-drop f g ks c h m p q)

module _ (queue : PriorityQueue) (edges : String → List Edge) (penalty : ℕ) where
  -- A state with a distance that no entry has.
  abbrev settled_with : Search queue → Node → Option ℕ → Bool
  settled_with s k none = false
  settled_with s k (some d) = queue.count (record { node = k; dist = d }) s.waiting == 0

  abbrev pub is_settled : Search queue → Node → Bool
  is_settled s k = settled_with s k (s.dist k)

  -- Settled distances lie behind a point in time and entries ahead of it, and every state that has a
  -- distance is one of the network's.
  pub record IsTimed (keys : List Node) (time : ℕ) (s : Search queue) : Type 0 where
    pub behind :
        (k : Node) (d : ℕ)
        → s.dist k ≡ some d
        → queue.count (record { node = k; dist = d }) s.waiting ≡ 0
        → d ≤ time
    pub ahead : (x : Entry) → 1 ≤ queue.count x s.waiting → time ≤ x.dist
    pub known : (k : Node) (d : ℕ) → s.dist k ≡ some d → AmongNodes k keys

  module _ (origin destination : String) (keys : List Node)
      (closed : (k : Node) (e : Edge)
        → AmongNodes k keys
        → Among e (edges k.station_id)
        → AmongNodes (target e) keys)
      (cur : Node) (d : ℕ) (e : Edge) (todo : List Edge) (s : Search queue)
      (v : IsSound queue edges penalty origin destination cur (e ∷ todo) s)
      (c : IsCurrent queue edges penalty origin destination cur d s)
      (m : Among e (edges cur.station_id)) (t : IsTimed keys d s) where
    counts :
        (x : Entry) (nd : ℕ)
        → queue.count x (queue.push (record { node = target e; dist = nd }) s.waiting)
          ≡ queue.count x s.waiting + bit (same_entry (record { node = target e; dist = nd }) x)
    counts x nd = queue.count-push x (record { node = target e; dist = nd }) s.waiting v.valid

    pub relax-IsTimed : IsTimed keys d (relax queue edges penalty cur d e s)
    unfolding relax
    relax-IsTimed =
        let nd = d + cost queue edges penalty cur e in
        elim (Bool-cases (is_nearer nd (s.dist (target e)))) [
          | inr h ↦ rw h t
          | inl h ↦ rw h (record {
            behind = λ k d2 g n. ground (
              arith,
              g,
              n,
              counts (record { node = k; dist = d2 }) nd,
              same_node_iff (target e) k,
              t.behind k d2,
            );
            ahead = λ x n. ground (
              arith,
              n,
              counts x nd,
              same_entry_iff (record { node = target e; dist = nd }) x,
              t.ahead x,
            );
            known = λ k d2 g. elim (Bool-cases (same_node (target e) k)) [
              | inl same ↦
                  subst (λ k. AmongNodes k keys) ((same_node_iff (target e) k).0 same)
                    (closed cur e (t.known cur d c.dist) m)
              | inr other ↦ t.known k d2 (ground (arith, other, g))
            ];
          })
        ]

    elsewhere :
        (k : Node) (nd : ℕ)
        → same_node (target e) k ≡ false
        → (o : Option ℕ)
        → settled_with
            (record {
              dist = set s.dist (target e) nd;
              prev = set s.prev (target e) cur;
              waiting = queue.push (record { node = target e; dist = nd }) s.waiting;
            })
            k
            o
          ≡ settled_with s k o
    elsewhere k nd h none = refl
    elsewhere k nd h (some o) = ground (arith, h, counts (record { node = k; dist = o }) nd)

    -- A state that becomes nearer was not settled, and is not settled yet.
    reached_again :
        (k : Node) (nd : ℕ)
        → target e ≡ k
        → is_nearer nd (s.dist (target e)) ≡ true
        → d < nd
        → (o : Option ℕ) → s.dist k ≡ o
        → (queue.count
              (record { node = k; dist = nd })
              (queue.push (record { node = target e; dist = nd }) s.waiting)
            == 0)
          ≡ settled_with s k o
    reached_again k nd eq h low none g =
        ground (arith, counts (record { node = k; dist = nd }) nd, same_node_iff (target e) k, eq)
    reached_again k nd eq h low (some d2) g = ground (
      arith,
      counts (record { node = k; dist = nd }) nd,
      same_node_iff (target e) k,
      eq,
      g,
      h,
      low,
      t.behind k d2,
    )

    pub relax-is_settled :
        (k : Node) → is_settled (relax queue edges penalty cur d e s) k ≡ is_settled s k
    unfolding relax
    relax-is_settled k =
        let nd = d + cost queue edges penalty cur e in
        elim (Bool-cases (is_nearer nd (s.dist (target e)))) [
          | inr h ↦ rw h refl
          | inl h ↦ rw h (elim (Bool-cases (same_node (target e) k)) [
            | inl same ↦
                let eq = (same_node_iff (target e) k).0 same in
                rw same (reached_again k nd eq h (omega arith) (s.dist k) refl)
            | inr other ↦ rw other (elsewhere k nd other (s.dist k))
          ])
        ]

    pub size-relax :
        queue.size (relax queue edges penalty cur d e s).waiting ≤ queue.size s.waiting + 1
    unfolding relax
    size-relax =
        let nd = d + cost queue edges penalty cur e in
        ground (arith, queue.size-push (record { node = target e; dist = nd }) s.waiting)
