-- ===== src/Route/Heap/Instance.antt =====
-- The heap of `findShortestPathWithTransfers` is the priority queue that its search relies on.
use metro_backend.Prelude.{
  ℕ, zero, suc, ◌+◌, ◌≤◌, ◌<◌, ◌≡◌, refl, List, [], ◌∷◌, ◌++◌, length, take, length-append, arith,
  none, some, ◌∙◌, Bool-cases, inl, inr,
}
use metro_backend.Route.Queue.{Entry, PriorityQueue, same_entry, same_entry_iff, bit}
use metro_backend.Route.Heap.{at, swap, parent, up, smallest, down, push, refill, pop}
use metro_backend.Route.Heap.Array.{length-swap, length-take}
use metro_backend.Route.Heap.Order.{IsHeap, push-IsHeap, pop-IsHeap, first_least}
use metro_backend.Route.Heap.Content.{count, count-push, count-pop}

length-up : (fuel : ℕ) (a : List Entry) (i : ℕ) → length (up fuel a i) ≡ length a
unfolding up
length-up zero a i = refl
length-up (suc fuel) a i =
    ground (arith, length-up fuel (swap a (parent i) i) (parent i), length-swap a (parent i) i)

length-down : (fuel : ℕ) (a : List Entry) (i : ℕ) → length (down fuel a i) ≡ length a
unfolding down
length-down zero a i = refl
length-down (suc fuel) a i = ground (
  arith,
  length-down fuel (swap a (smallest a i) i) (smallest a i),
  length-swap a (smallest a i) i,
)

pub length-push : (e : Entry) (a : List Entry) → length (push e a) ≡ length a + 1
unfolding push
length-push e a = length-up (length a) (a ++ e ∷ []) (length a) ∙ length-append a (e ∷ [])

length-refill : (last : Entry) (a : List Entry) → length (refill last a) ≡ length a
unfolding refill
length-refill last [] = refl
length-refill last (x ∷ a) = length-down (length (x ∷ a)) (last ∷ a) 0

pub length-pop : (e : Entry) (a b : List Entry) → pop a ≡ some (e, b) → length a ≡ length b + 1
unfolding pop
length-pop e [] b h = cc
length-pop e (x ∷ a) b h = ground (
  arith,
  length-refill (at (x ∷ a) (length a)) (take (length a) (x ∷ a)),
  length-take (length a) (x ∷ a),
)

pub pop_none : (x : Entry) (a : List Entry) → pop a ≡ none → count x a ≡ 0
unfolding pop count
pop_none x [] h = refl
pop_none x (y ∷ a) h = cc

-- An entry that the array holds stands somewhere in it.
place_of : (x : Entry) (a : List Entry) → 1 ≤ count x a → (i : ℕ) × ((i < length a) × (at a i ≡ x))
unfolding count
place_of x [] h = ground arith
place_of x (y ∷ a) h = elim (Bool-cases (same_entry y x)) [
  | inl e ↦ (0, (omega arith, (same_entry_iff y x).0 e))
  | inr e ↦
      let (i, (inside, same)) = place_of x a (ground arith) in
      (suc i, (omega (arith, inside), same))
]

pub pop-le :
    (x e : Entry) (a b : List Entry)
    → IsHeap a
    → pop a ≡ some (e, b)
    → 1 ≤ count x a
    → e.dist ≤ x.dist
unfolding pop
pop-le x e [] b v h n = cc
pop-le x e (y ∷ a) b v h n =
    let (i, (inside, same)) = place_of x (y ∷ a) n in
    ground (arith, first_least (y ∷ a) i v inside, same)

pub empty-IsHeap : IsHeap []
empty-IsHeap = record { edge = λ c p k. ground arith }

pub count_empty : (x : Entry) → count x [] ≡ 0
unfolding count
count_empty x = refl

-- The array with its order is a queue that pops an entry of the least distance.
abbrev pub min_heap : PriorityQueue
min_heap = record {
  Q = List Entry;
  IsValid = IsHeap;
  empty = [];
  push = push;
  pop = pop;
  count = count;
  size = length;
  empty-IsValid = empty-IsHeap;
  count-empty = count_empty;
  size-empty = refl;
  push-IsValid = push-IsHeap;
  count-push = λ x e q v. count-push x e q;
  size-push = length-push;
  pop_none = pop_none;
  pop-IsValid = λ e q r v h. pop-IsHeap e q r v h;
  count-pop = λ x e q r v h. count-pop x e q r h;
  size-pop = length-pop;
  pop-le = pop-le;
}

first_popped :
    (a b : List Entry) (e : Entry)
    → IsHeap a
    → pop a ≡ some (e, b)
    → (i : ℕ) → i < length a
    → e.dist ≤ (at a i).dist
unfolding pop
first_popped [] b e v h i l = cc
first_popped (y ∷ a) b e v h i l = ground (arith, first_least (y ∷ a) i v l)

-- A pop of a heap takes an entry of the least distance and leaves a heap of the other entries, each
-- as often as it was.
pub pop_least :
    (a b : List Entry) (e x : Entry)
    → IsHeap a
    → pop a ≡ some (e, b)
    → (count x a ≡ count x b + bit (same_entry e x))
      × ((i : ℕ) → i < length a → e.dist ≤ (at a i).dist)
      × IsHeap b
unfolding pop
pop_least a b e x v h = (count-pop x e a b h, first_popped a b e v h, pop-IsHeap e a b v h)
