-- ===== src/Route/Heap/Order.antt =====
-- The order of the heap under `#up` and `#down`.
use metro_backend.Prelude.{
  ℕ, zero, suc, ◌+◌, ◌*◌, ◌≤◌, ◌<◌, ◌≡◌, ◌≢◌, refl, List, [], ◌∷◌, ◌++◌, length, length-append,
  take, arith, ◌⊎◌, some,
}
use metro_backend.Route.Queue.{Entry}
use metro_backend.Route.Heap.{at, swap, parent, up, smaller, smallest, down, push, refill, pop}
use metro_backend.Route.Heap.Array.{length-swap, at-swap, at-append, at-take, length-take}

-- No entry is nearer than the one above it.
pub record IsHeap (a : List Entry) : Type 0 where
  pub edge : (c : ℕ) → 0 < c → c < length a → (at a (parent c)).dist ≤ (at a c).dist

-- Ordered but for the edge above one place, which its children respect as well.
pub record IsRising (a : List Entry) (i : ℕ) : Type 0 where
  pub inside : i < length a
  pub edge : (c : ℕ) → 0 < c → c < length a → c ≢ i → (at a (parent c)).dist ≤ (at a c).dist
  pub over :
      (c : ℕ) → 0 < c → c < length a → parent c ≡ i → 0 < i → (at a (parent i)).dist ≤ (at a c).dist

rise-IsRising :
    (a : List Entry) (i : ℕ)
    → IsRising a i
    → 0 < i
    → (at a i).dist < (at a (parent i)).dist
    → IsRising (swap a (parent i) i) (parent i)
rise-IsRising a i r pos lower =
    let p = parent i in
    let size = length-swap a p i in
    let read = λ (c : ℕ). at-swap a p i c (omega (arith, r.inside)) r.inside in
    record {
      inside = omega (arith, r.inside, size);
      edge = λ c h k n. ground (arith, size, read c, read (parent c), r.edge c, r.over c);
      over = λ c h k n q. ground (arith, size, read c, read (parent p), r.edge c, r.edge p);
    }

settled-IsHeap :
    (a : List Entry) (i : ℕ)
    → IsRising a i
    → (i ≡ 0) ⊎ ((at a (parent i)).dist ≤ (at a i).dist)
    → IsHeap a
settled-IsHeap a i r h = record { edge = λ c p k. ground (arith, h, r.edge c) }

up-IsHeap : (fuel : ℕ) (a : List Entry) (i : ℕ) → i ≤ fuel → IsRising a i → IsHeap (up fuel a i)
unfolding up
up-IsHeap zero a i f r = record { edge = λ c h k. ground (arith, r.edge c) }
up-IsHeap (suc fuel) a i f r = ground (
  arith,
  r.inside,
  up-IsHeap fuel (swap a (parent i) i) (parent i),
  rise-IsRising a i r,
  settled-IsHeap a i r,
)

-- Ordered but for the edges below one place, whose children respect the entry above it.
pub record IsSinking (a : List Entry) (i : ℕ) : Type 0 where
  pub edge : (c : ℕ) → 0 < c → c < length a → parent c ≢ i → (at a (parent c)).dist ≤ (at a c).dist
  pub over :
      (c : ℕ) → 0 < c → c < length a → parent c ≡ i → 0 < i → (at a (parent i)).dist ≤ (at a c).dist

-- What `#down` compares: the nearest of a place and its children.
record IsSmallest (a : List Entry) (i s : ℕ) : Type 0 where
  inside : s < length a
  place : (s ≡ i) ⊎ ((0 < s) × (parent s ≡ i))
  least : (c : ℕ) → 0 < c → c < length a → parent c ≡ i → (at a s).dist ≤ (at a c).dist
  lower : s ≢ i → (at a s).dist < (at a i).dist

smallest-IsSmallest : (a : List Entry) (i : ℕ) → i < length a → IsSmallest a i (smallest a i)
unfolding smallest smaller
smallest-IsSmallest a i h = record {
  inside = ground arith;
  place = ground arith;
  least = λ c p k q.
      let side : (c ≡ 2 * i + 1) ⊎ (c ≡ 2 * i + 2) = omega (arith, p, q) in ground (arith, side, k);
  lower = λ n. ground arith;
}

sink-IsSinking :
    (a : List Entry) (i s : ℕ)
    → IsSinking a i
    → i < length a
    → IsSmallest a i s
    → s ≢ i
    → IsSinking (swap a s i) s
sink-IsSinking a i s k h m n =
    let size = length-swap a s i in
    let read = λ (c : ℕ). at-swap a s i c m.inside h in
    record {
      edge = λ c p l q.
          ground
            (arith, size, read c, read (parent c), k.edge c, k.over s, m.least c, m.lower, m.place);
      over = λ c p l q z. ground (arith, size, read c, read (parent s), k.edge c, m.place, n);
    }

sunk-IsHeap : (a : List Entry) (i s : ℕ) → IsSinking a i → IsSmallest a i s → s ≡ i → IsHeap a
sunk-IsHeap a i s k m e = record { edge = λ c p l. ground (arith, k.edge c, m.least c, e) }

below : (x y : Entry) (a : List Entry) (c : ℕ) → 0 < c → at (y ∷ a) c ≡ at (x ∷ a) c
below x y a zero h = ground arith
below x y a (suc c) h = refl

down-IsHeap :
    (fuel : ℕ) (a : List Entry) (i : ℕ)
    → i < length a
    → length a ≤ fuel + i
    → IsSinking a i
    → IsHeap (down fuel a i)
unfolding down
down-IsHeap zero a i h f k = ground arith
down-IsHeap (suc fuel) a i h f k =
    let m = smallest-IsSmallest a i h in
    ground (
      arith,
      sunk-IsHeap a i (smallest a i) k m,
      down-IsHeap fuel (swap a (smallest a i) i) (smallest a i),
      sink-IsSinking a i (smallest a i) k h m,
      length-swap a (smallest a i) i,
      m.inside,
      m.place,
    )

pub push-IsHeap : (e : Entry) (a : List Entry) → IsHeap a → IsHeap (push e a)
unfolding push
push-IsHeap e a h =
    let size = length-append a (e ∷ []) in
    up-IsHeap (length a) (a ++ e ∷ []) (length a) (omega arith) (record {
      inside = omega (arith, size);
      edge = λ c p k n. ground (arith, size, h.edge c, at-append a e c, at-append a e (parent c));
      over = λ c p k q z. ground (arith, size);
    })

refill-IsHeap : (last x : Entry) (a : List Entry) → IsHeap (x ∷ a) → IsHeap (refill last (x ∷ a))
unfolding refill
refill-IsHeap last x a h =
    down-IsHeap (length (x ∷ a)) (last ∷ a) 0 (omega arith) (omega arith) (record {
      edge = λ c p k n. ground (arith, h.edge c, below x last a c, below x last a (parent c));
      over = λ c p k q z. ground arith;
    })

take-IsHeap : (n : ℕ) (a : List Entry) → n ≤ length a → IsHeap a → IsHeap (take n a)
take-IsHeap n a l h = record {
  edge =
      λ c p k. ground (arith, length-take n a l, h.edge c, at-take n a c, at-take n a (parent c));
}

refilled-IsHeap : (last : Entry) (a : List Entry) → IsHeap a → IsHeap (refill last a)
refilled-IsHeap last [] h = unfold refill in h
refilled-IsHeap last (x ∷ a) h = refill-IsHeap last x a h

pub pop-IsHeap : (e : Entry) (a b : List Entry) → IsHeap a → pop a ≡ some (e, b) → IsHeap b
unfolding pop
pop-IsHeap e [] b h k = cc
pop-IsHeap e (x ∷ a) b h k = ground (
  arith,
  refilled-IsHeap (at (x ∷ a) (length a)) (take (length a) (x ∷ a)),
  take-IsHeap (length a) (x ∷ a),
  h,
)

first_least_below :
    (fuel : ℕ) (a : List Entry) (i : ℕ)
    → IsHeap a
    → i < fuel
    → i < length a
    → (at a 0).dist ≤ (at a i).dist
first_least_below zero a i h f l = ground arith
first_least_below (suc fuel) a i h f l =
    ground (arith, h.edge i, first_least_below fuel a (parent i) h)

-- The first entry is the nearest.
pub first_least : (a : List Entry) (i : ℕ) → IsHeap a → i < length a → (at a 0).dist ≤ (at a i).dist
first_least a i h l = first_least_below (suc i) a i h (omega arith) l
