-- ===== src/Payments/Sound.antt =====
-- What holds of the tables and the events of one payment whatever happens.
use metro_backend.Prelude.{
  ℕ, ◌-◌, ◌≤◌, ◌≡◌, refl, ap, subst, Bool, true, false, ◌&&◌, ◌==◌, String, str_eq, eq_iff, Option,
  none, some, List, [], ◌∷◌, ◌++◌, arith, if◌then◌else◌, Bool-cases, inl, inr, Option-cases, length,
  Text, ◌⊎◌,
}
use metro_backend.Sepay.{Payload}
use metro_backend.Sepay.Content.{uuid_format, or_else}
use metro_backend.Payments.{
  Payment, completed, Transaction, Event, Store, is_completed, write, publish, find_payment,
  has_id_text, of_ticket, update_payments, payment_completed,
}
use metro_backend.Payments.Notices.{
  Normalized, complete, settle_payment, payment_named, handle_webhook_payload, normalize_payload,
  as_completed, does_settle, payment_of_ticket, is_empty, all_hex,
}
use metro_backend.Payments.Ledger.{
  received, entries, published, received-append, entries-append, published-append, row_of, Unique,
  changed, row_of-update, update-Unique, find_payment-row,
}

-- The amount that a payment is owed once it is completed, and the transactions that it may have.
abbrev pub due : Option Payment → ℕ
due none = 0
due (some p) = if is_completed p.payment_status then p.payment_amount else 0

abbrev pub paid : Option Payment → ℕ
paid none = 0
paid (some p) = if is_completed p.payment_status then 1 else 0

-- No more was received than is owed, at most one transaction and one event were written, and no
-- two rows have a key.
pub record IsSound (k : String) (ps : List Payment) (ts : List Transaction) (es : List Event)
    : Type 0 where
  pub sum : received k ts ≤ due (row_of k ps)
  pub once : entries k ts ≤ paid (row_of k ps)
  pub told : published k es ≤ entries k ts
  pub unique : Unique ps

abbrev pub AllSound : String → Store → Type 0
AllSound k s = IsSound k s.payments s.transactions s.events

abbrev pub entry_of : Payment → Transaction
entry_of p = record {
  payment_id = p.payment_id;
  transaction_amount = p.payment_amount;
  transaction_status = completed;
}

abbrev pub notice_of : Payment → Event
notice_of p = payment_completed p.payment_id p.ticket_id p.passenger_id p.payment_amount

module _ (k : String) (now : ℕ) (ps : List Payment) (ts : List Transaction) (es : List Event)
    (sound : IsSound k ps ts es) (p : Payment) (row : row_of p.payment_id ps ≡ some p)
    (waits : is_completed p.payment_status ≡ false) where
  rows : List Payment
  rows = update_payments p.payment_id (as_completed now) ps

  row_after :
      row_of k rows ≡ (if str_eq p.payment_id k then some (as_completed now p) else row_of k ps)
  unfolding rows
  row_after = elim (Bool-cases (str_eq p.payment_id k)) [
    | inl this ↦
        rw (row_of-update k p.payment_id (as_completed now) ps (λ q. refl), this)
          (ap (changed (as_completed now))
            (subst (λ i. row_of i ps ≡ some p) ((eq_iff p.payment_id k).0 this) row))
    | inr other ↦ rw (row_of-update k p.payment_id (as_completed now) ps (λ q. refl), other) refl
  ]

  -- Nothing was written for a payment that waits.
  none_yet : str_eq p.payment_id k ≡ true → (received k ts ≡ 0) × (entries k ts ≡ 0)
  none_yet this =
      let found : row_of k ps ≡ some p =
        subst (λ i. row_of i ps ≡ some p) ((eq_iff p.payment_id k).0 this) row in
      let owed : due (row_of k ps) ≡ 0 = rw (found, waits) refl in
      let had : paid (row_of k ps) ≡ 0 = rw (found, waits) refl in
      (omega (arith, sound.sum), omega (arith, sound.once))

  rows-Unique : Unique rows
  unfolding rows
  rows-Unique = update-Unique p.payment_id (as_completed now) ps (λ q. refl) sound.unique

  owed :
      due (row_of k rows) ≡ (if str_eq p.payment_id k then p.payment_amount else due (row_of k ps))
  owed = elim (Bool-cases (str_eq p.payment_id k)) [
    | inl this ↦ rw (row_after, this) refl
    | inr other ↦ rw (row_after, other) refl
  ]

  allowed : paid (row_of k rows) ≡ (if str_eq p.payment_id k then 1 else paid (row_of k ps))
  allowed = elim (Bool-cases (str_eq p.payment_id k)) [
    | inl this ↦ rw (row_after, this) refl
    | inr other ↦ rw (row_after, other) refl
  ]

  completed-IsSound : IsSound k rows ts es
  completed-IsSound = record {
    sum = ground (arith, owed, none_yet, sound.sum);
    once = ground (arith, allowed, none_yet, sound.once);
    told = sound.told;
    unique = rows-Unique;
  }

  entered-IsSound : IsSound k rows (ts ++ entry_of p ∷ []) es
  entered-IsSound = record {
    sum = ground (arith, owed, none_yet, sound.sum, received-append k (entry_of p) ts);
    once = ground (arith, allowed, none_yet, sound.once, entries-append k (entry_of p) ts);
    told = ground (arith, sound.told, entries-append k (entry_of p) ts);
    unique = rows-Unique;
  }

  announced-IsSound : IsSound k rows (ts ++ entry_of p ∷ []) (es ++ notice_of p ∷ [])
  announced-IsSound =
      let entered = entered-IsSound in
      record {
        sum = entered.sum;
        once = entered.once;
        told = ground (
          arith,
          sound.told,
          entries-append k (entry_of p) ts,
          published-append k (notice_of p) es,
        );
        unique = rows-Unique;
      }

pub either :
    (a b : Option Payment) (c : Bool) (p : Payment)
    → or_else a (if c then b else none) ≡ some p
    → (a ≡ some p) ⊎ (b ≡ some p)
either none b true p e = inr e
either none b false p e = cc
either (some a) b c p e = inl e

-- A payment that a message finds is the row of its key.
payment_of_ticket-row :
    (id : Text) (ps : List Payment) (p : Payment)
    → Unique ps
    → payment_of_ticket id ps ≡ some p
    → row_of p.payment_id ps ≡ some p
unfolding payment_of_ticket
payment_of_ticket-row id ps p u e =
    elim (either (find_payment (of_ticket id) ps) (find_payment (of_ticket (uuid_format id)) ps)
      (length id == 32 && all_hex id) p e) [
        | inl exact ↦ find_payment-row (of_ticket id) ps p u exact
        | inr dashed ↦ find_payment-row (of_ticket (uuid_format id)) ps p u dashed
      ]

pub payment_named-row :
    (n : Normalized) (ps : List Payment) (p : Payment)
    → Unique ps
    → payment_named n ps ≡ some p
    → row_of p.payment_id ps ≡ some p
unfolding payment_named
payment_named-row n ps p u e = elim (Bool-cases (is_empty n.payment_id)) [
  | inl by_ticket ↦ elim (Option-cases n.ticket_id) [
    | inl nameless ↦ ground (arith, e, by_ticket, nameless)
    | inr (id, named) ↦ payment_of_ticket-row id ps p u (ground (arith, e, by_ticket, named))
  ]
  | inr by_key ↦ find_payment-row (has_id_text n.payment_id) ps p u (ground (arith, e, by_key))
]

pub does_settle-waits :
    (n : Normalized) (p : Payment) → does_settle n p ≡ true → is_completed p.payment_status ≡ false
unfolding does_settle
does_settle-waits n p h = ground arith

module _ (k : String) (s : Store) (sound : AllSound k s) where
  complete-IsSound :
      (p : Payment)
      → row_of p.payment_id s.payments ≡ some p
      → is_completed p.payment_status ≡ false
      → AllSound k (complete p s).1
  unfolding complete write publish rows
  complete-IsSound p row waits =
      let paid_row =
        completed-IsSound k s.now s.payments s.transactions s.events sound p row waits in
      let entered = entered-IsSound k s.now s.payments s.transactions s.events sound p row waits in
      let announced =
        announced-IsSound k s.now s.payments s.transactions s.events sound p row waits in
      elim (Bool-cases (s.writes_left == 0)) [
        | inl gone ↦ rw gone sound
        | inr first ↦ elim (Bool-cases (s.writes_left - 1 == 0)) [
          | inl gone ↦ rw (first, gone) paid_row
          | inr second ↦ elim (Bool-cases (s.writes_left - 1 - 1 == 0)) [
            | inl gone ↦ rw (first, second, gone) entered
            | inr third ↦ elim (Bool-cases s.broker_up) [
              | inl up ↦ rw (first, second, third, up) announced
              | inr down ↦ rw (first, second, third, down) entered
            ]
          ]
        ]
      ]

  settle_payment-IsSound :
      (n : Normalized) (o : Option Payment)
      → payment_named n s.payments ≡ o
      → AllSound k (settle_payment n o s).1
  unfolding settle_payment
  settle_payment-IsSound n none e = sound
  settle_payment-IsSound n (some p) e = elim (Bool-cases (does_settle n p)) [
    | inl does ↦ rw does (
        complete-IsSound p (payment_named-row n s.payments p sound.unique e)
          (does_settle-waits n p does))
    | inr leaves ↦ rw leaves sound
  ]

  -- No message leads out of the sound states, whatever fails.
  pub handle_webhook_payload-IsSound : (raw : Payload) → AllSound k (handle_webhook_payload raw s).1
  unfolding handle_webhook_payload
  handle_webhook_payload-IsSound raw =
      settle_payment-IsSound (normalize_payload raw)
        (payment_named (normalize_payload raw) s.payments) refl
