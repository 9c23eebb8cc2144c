-- ===== src/Route/Heap/Content.antt =====
-- What the heap holds, and the heap as the priority queue of the search.
use metro_backend.Prelude.{
  ℕ, zero, suc, ◌+◌, ◌*◌, ◌<◌, ◌≡◌, refl, List, [], ◌∷◌, ◌++◌, length, take, length-append, arith,
  some, ◌∙◌,
}
use metro_backend.Route.Queue.{Entry, same_entry, bit}
use metro_backend.Route.Heap.{at, put, swap, parent, up, smaller, smallest, down, push, refill, pop}
use metro_backend.Route.Heap.Array.{length-put, length-swap, at-put}

unfoldable pub count : Entry → List Entry → ℕ
count x [] = 0
count x (y ∷ a) = bit (same_entry y x) + count x a

count-put :
    (x : Entry) (a : List Entry) (i : ℕ) (e : Entry)
    → i < length a
    → count x (put a i e) + bit (same_entry (at a i) x) ≡ count x a + bit (same_entry e x)
unfolding count
count-put x [] i e h = ground arith
count-put x (y ∷ a) zero e h = omega arith
count-put x (y ∷ a) (suc i) e h = omega (arith, count-put x a i e (omega arith))

count-swap :
    (x : Entry) (a : List Entry) (i j : ℕ)
    → i < length a
    → j < length a
    → count x (swap a i j) ≡ count x a
unfolding swap
count-swap x a i j hi hj =
    let b = put a i (at a j) in
    let read : at b j ≡ at a j = ground (arith, at-put a i j (at a j) hi) in
    let second = count-put x b j (at a i) (omega (arith, length-put a i (at a j))) in
    omega (arith, count-put x a i (at a j) hi, rw read at second)

smaller_inside : (a : List Entry) (s c : ℕ) → s < length a → smaller a s c < length a
unfolding smaller
smaller_inside a s c h = ground arith

smallest_inside : (a : List Entry) (i : ℕ) → i < length a → smallest a i < length a
unfolding smallest
smallest_inside a i h = smaller_inside a _ (2 * i + 2) (smaller_inside a i (2 * i + 1) h)

-- Sifting moves entries and neither adds nor drops one.
module _ (x : Entry) where
  count-up : (fuel : ℕ) (a : List Entry) (i : ℕ) → i < length a → count x (up fuel a i) ≡ count x a
  unfolding up
  count-up zero a i h = refl
  count-up (suc fuel) a i h = ground (
    arith,
    count-up fuel (swap a (parent i) i) (parent i),
    count-swap x a (parent i) i,
    length-swap a (parent i) i,
  )

  count-down :
      (fuel : ℕ) (a : List Entry) (i : ℕ) → i < length a → count x (down fuel a i) ≡ count x a
  unfolding down
  count-down zero a i h = refl
  count-down (suc fuel) a i h = ground (
    arith,
    smallest_inside a i h,
    count-down fuel (swap a (smallest a i) i) (smallest a i),
    count-swap x a (smallest a i) i,
    length-swap a (smallest a i) i,
  )

  count-append :
      (a : List Entry) (e : Entry) → count x (a ++ e ∷ []) ≡ count x a + bit (same_entry e x)
  unfolding count
  count-append [] e = omega arith
  count-append (y ∷ a) e = omega (arith, count-append a e)

  count-take :
      (n : ℕ) (a : List Entry)
      → length a ≡ suc n
      → count x (take n a) + bit (same_entry (at a n) x) ≡ count x a
  unfolding count
  count-take n [] h = ground arith
  count-take zero (y ∷ []) h = omega arith
  count-take zero (y ∷ z ∷ a) h = ground arith
  count-take (suc n) (y ∷ a) h = omega (arith, count-take n a (omega arith))

  pub count-push :
      (e : Entry) (a : List Entry) → count x (push e a) ≡ count x a + bit (same_entry e x)
  unfolding push
  count-push e a =
      count-up (length a) (a ++ e ∷ []) (length a) (omega (arith, length-append a (e ∷ [])))
      ∙ count-append a e

  count-refill :
      (last y : Entry) (a : List Entry)
      → count x (refill last (y ∷ a)) ≡ bit (same_entry last x) + count x a
  unfolding refill
  count-refill last y a =
      count-down (length (y ∷ a)) (last ∷ a) 0 (omega arith) ∙ unfold count in refl

  count-rest :
      (y : Entry) (a : List Entry)
      → count x (refill (at (y ∷ a) (length a)) (take (length a) (y ∷ a))) ≡ count x a
  count-rest y [] = unfold refill in refl
  count-rest y (z ∷ a) =
      let kept = count-take (length a) (z ∷ a) refl in
      omega (arith, kept, count-refill (at (z ∷ a) (length a)) y (take (length a) (z ∷ a)))

  pub count-pop :
      (e : Entry) (a b : List Entry)
      → pop a ≡ some (e, b)
      → count x a ≡ count x b + bit (same_entry e x)
  unfolding pop count
  count-pop e [] b h = cc
  count-pop e (y ∷ a) b h = ground (arith, count-rest y a)
