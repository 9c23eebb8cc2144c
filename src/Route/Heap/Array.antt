-- ===== src/Route/Heap/Array.antt =====
-- Reads after writes of the array of the heap.
use metro_backend.Prelude.{
  ℕ, zero, suc, ◌≤◌, ◌<◌, ◌≡◌, refl, ap, List, [], ◌∷◌, ◌++◌, ◌==◌, length, take, if◌then◌else◌,
  arith,
}
use metro_backend.Route.Queue.{Entry}
use metro_backend.Route.Heap.{at, put, swap}

pub length-put : (a : List Entry) (i : ℕ) (e : Entry) → length (put a i e) ≡ length a
length-put [] i e = refl
length-put (x ∷ a) zero e = refl
length-put (x ∷ a) (suc i) e = ap suc (length-put a i e)

pub at-put :
    (a : List Entry) (i j : ℕ) (e : Entry)
    → i < length a
    → at (put a i e) j ≡ (if i == j then e else at a j)
at-put [] i j e h = ground arith
at-put (x ∷ a) zero zero e h = refl
at-put (x ∷ a) zero (suc j) e h = ground arith
at-put (x ∷ a) (suc i) zero e h = ground arith
at-put (x ∷ a) (suc i) (suc j) e h = ground (arith, at-put a i j e)

pub length-swap : (a : List Entry) (i j : ℕ) → length (swap a i j) ≡ length a
unfolding swap
length-swap a i j = omega (arith, length-put (put a i (at a j)) j (at a i), length-put a i (at a j))

pub at-swap :
    (a : List Entry) (i j c : ℕ)
    → i < length a
    → j < length a
    → at (swap a i j) c ≡ (if j == c then at a i else if i == c then at a j else at a c)
unfolding swap
at-swap a i j c hi hj =
    ground (
      arith,
      length-put a i (at a j),
      at-put (put a i (at a j)) j c (at a i),
      at-put a i c (at a j),
    )

pub at-append : (a : List Entry) (e : Entry) (i : ℕ) → i < length a → at (a ++ e ∷ []) i ≡ at a i
at-append [] e i h = ground arith
at-append (x ∷ a) e zero h = refl
at-append (x ∷ a) e (suc i) h = at-append a e i (omega arith)

pub at-take : (n : ℕ) (a : List Entry) (i : ℕ) → i < n → at (take n a) i ≡ at a i
at-take zero a i h = ground arith
at-take (suc n) [] i h = refl
at-take (suc n) (x ∷ a) zero h = refl
at-take (suc n) (x ∷ a) (suc i) h = at-take n a i (omega arith)

pub length-take : (n : ℕ) (a : List Entry) → n ≤ length a → length (take n a) ≡ n
length-take zero a h = refl
length-take (suc n) [] h = omega arith
length-take (suc n) (x ∷ a) h = ap suc (length-take n a (omega arith))
