-- ===== src/Payments/Ledger.antt =====
-- The sums of the tables for one payment, and how the statements change them.
use metro_backend.Prelude.{
  ℕ, ◌+◌, ◌≡◌, refl, Bool, String, str_eq, eq_iff, eq_refl, Option, none, some, List, [], ◌∷◌, ◌++◌,
  arith, if◌then◌else◌,
}
use metro_backend.Payments.{
  Payment, Transaction, Event, payment_completed, ticket_payment_ready, payment_cancelled,
  find_payment, has_id, update_payments,
}

-- What the transactions of a payment add up to, and how many they are.
unfoldable pub received : String → List Transaction → ℕ
received id [] = 0
received id (t ∷ ts) = (if str_eq t.payment_id id then t.transaction_amount else 0) + received id ts

unfoldable pub entries : String → List Transaction → ℕ
entries id [] = 0
entries id (t ∷ ts) = (if str_eq t.payment_id id then 1 else 0) + entries id ts

abbrev pub announces : String → Event → ℕ
announces id (payment_completed payment ticket passenger amount) =
    if str_eq payment id then 1 else 0
announces id (ticket_payment_ready ticket payment) = 0
announces id (payment_cancelled payment ticket) = 0

-- How often `payment.completed` was published for a payment.
unfoldable pub published : String → List Event → ℕ
published id [] = 0
published id (e ∷ es) = announces id e + published id es

pub received-append :
    (id : String) (t : Transaction) (ts : List Transaction)
    → received id (ts ++ t ∷ [])
      ≡ received id ts + (if str_eq t.payment_id id then t.transaction_amount else 0)
unfolding received
received-append id t [] = omega arith
received-append id t (u ∷ ts) = omega (arith, received-append id t ts)

pub entries-append :
    (id : String) (t : Transaction) (ts : List Transaction)
    → entries id (ts ++ t ∷ []) ≡ entries id ts + (if str_eq t.payment_id id then 1 else 0)
unfolding entries
entries-append id t [] = omega arith
entries-append id t (u ∷ ts) = omega (arith, entries-append id t ts)

pub published-append :
    (id : String) (e : Event) (es : List Event)
    → published id (es ++ e ∷ []) ≡ published id es + announces id e
unfolding published
published-append id e [] = omega arith
published-append id e (f ∷ es) = omega (arith, published-append id e es)

abbrev pub row_of : String → List Payment → Option Payment
row_of id = find_payment (has_id id)

-- No two rows have a key.
abbrev pub Unique : List Payment → Type 0
Unique [] = Unit
Unique (p ∷ ps) = (row_of p.payment_id ps ≡ none) × Unique ps

abbrev pub changed : (Payment → Payment) → Option Payment → Option Payment
changed f none = none
changed f (some p) = some (f p)

abbrev pub KeepsKey : (Payment → Payment) → Type 0
KeepsKey f = (p : Payment) → (f p).payment_id ≡ p.payment_id

pub row_of-update :
    (k id : String) (f : Payment → Payment) (ps : List Payment)
    → KeepsKey f
    → row_of k (update_payments id f ps)
      ≡ (if str_eq id k then changed f (row_of k ps) else row_of k ps)
unfolding update_payments find_payment
row_of-update k id f [] keeps = ground arith
row_of-update k id f (p ∷ ps) keeps = ground (
  arith,
  keeps p,
  row_of-update k id f ps keeps,
  eq_iff p.payment_id id,
  eq_iff p.payment_id k,
  eq_iff (f p).payment_id k,
  eq_iff id k,
)

pub update-Unique :
    (id : String) (f : Payment → Payment) (ps : List Payment)
    → KeepsKey f
    → Unique ps
    → Unique (update_payments id f ps)
unfolding update_payments
update-Unique id f [] keeps u = tt
update-Unique id f (p ∷ ps) keeps u = ground (
  arith,
  keeps p,
  update-Unique id f ps keeps u.1,
  row_of-update p.payment_id id f ps keeps,
  row_of-update (f p).payment_id id f ps keeps,
  eq_iff p.payment_id id,
)

-- The row that any search finds is the row of its key.
pub find_payment-row :
    (q : Payment → Bool) (ps : List Payment) (p : Payment)
    → Unique ps
    → find_payment q ps ≡ some p
    → row_of p.payment_id ps ≡ some p
unfolding find_payment
find_payment-row q [] p u e = cc
find_payment-row q (r ∷ ps) p u e =
    ground
      (arith, find_payment-row q ps p u.1, eq_iff r.payment_id p.payment_id, eq_refl p.payment_id)

pub row_of-append :
    (k : String) (ps : List Payment) (p : Payment)
    → row_of k (ps ++ p ∷ [])
      ≡ (elim (row_of k ps) [ none ↦ if has_id k p then some p else none | some r ↦ some r ])
unfolding find_payment
row_of-append k [] p = refl
row_of-append k (r ∷ ps) p = ground (arith, row_of-append k ps p)

pub append-Unique :
    (ps : List Payment) (p : Payment)
    → Unique ps
    → row_of p.payment_id ps ≡ none
    → Unique (ps ++ p ∷ [])
unfolding find_payment
append-Unique [] p u e = (refl, tt)
append-Unique (r ∷ ps) p u e = ground (
  arith,
  append-Unique ps p u.1,
  row_of-append r.payment_id ps p,
  eq_iff r.payment_id p.payment_id,
  eq_iff p.payment_id r.payment_id,
)
