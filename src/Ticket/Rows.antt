-- ===== src/Ticket/Rows.antt =====
-- Properties that hold of every row of the table, under a search and a write.
use metro_backend.Prelude.{
  false, ◌≡◌, String, none, some, List, [], ◌∷◌, All, str_eq, arith, map, Bool-cases, inl, inr,
  subst, ◌++◌, refl, eq_iff,
}
use metro_backend.Ticket.{Ticket, find_by_pk, save, find_by_pk-save}

module _ (P : Ticket → Type 0) where
  pub save-All : (t : Ticket) (ts : List Ticket) → P t → All P ts → All P (save t ts)
  unfolding save
  save-All t [] p h = tt
  save-All t (u ∷ us) p h = elim (Bool-cases (str_eq u.ticket_id t.ticket_id)) [
    | inl e ↦ rw e (p, h.1)
    | inr e ↦ rw e (h.0, save-All t us p h.1)
  ]

  pub find_by_pk-All :
      (id : String) (ts : List Ticket) (t : Ticket) → find_by_pk id ts ≡ some t → All P ts → P t
  unfolding find_by_pk
  find_by_pk-All id [] t e h = cc
  find_by_pk-All id (u ∷ us) t e h = elim (Bool-cases (str_eq u.ticket_id id)) [
    | inl same ↦ (let p : u ≡ t = ground arith in subst P p h.0)
    | inr other ↦ find_by_pk-All id us t (ground arith) h.1
  ]

  pub map-All :
      (f : Ticket → Ticket) (ts : List Ticket)
      → ((t : Ticket) → P t → P (f t))
      → All P ts
      → All P (map f ts)
  map-All f [] keeps h = tt
  map-All f (t ∷ ts) keeps h = (keeps t h.0, map-All f ts keeps h.1)

-- No two rows have the same key.
abbrev pub Distinct : List Ticket → Type 0
Distinct [] = Unit
Distinct (t ∷ ts) = (find_by_pk t.ticket_id ts ≡ none) × Distinct ts

find_by_pk-save-none :
    (id : String) (t : Ticket) (ts : List Ticket)
    → find_by_pk id ts ≡ none
    → find_by_pk id (save t ts) ≡ none
find_by_pk-save-none id t ts h = ground (arith, find_by_pk-save id t ts)

pub save-Distinct : (t : Ticket) (ts : List Ticket) → Distinct ts → Distinct (save t ts)
unfolding save
save-Distinct t [] d = tt
save-Distinct t (u ∷ us) d = ground (
  arith,
  eq_iff u.ticket_id t.ticket_id,
  find_by_pk-save-none u.ticket_id t us,
  save-Distinct t us d.1,
)

find_by_pk-map-none :
    (f : Ticket → Ticket) (id : String) (ts : List Ticket)
    → ((t : Ticket) → (f t).ticket_id ≡ t.ticket_id)
    → find_by_pk id ts ≡ none
    → find_by_pk id (map f ts) ≡ none
unfolding find_by_pk
find_by_pk-map-none f id [] same h = refl
find_by_pk-map-none f id (t ∷ ts) same h =
    rw (same t) (ground (arith, find_by_pk-map-none f id ts same))

pub map-Distinct :
    (f : Ticket → Ticket) (ts : List Ticket)
    → ((t : Ticket) → (f t).ticket_id ≡ t.ticket_id)
    → Distinct ts
    → Distinct (map f ts)
map-Distinct f [] same d = tt
map-Distinct f (t ∷ ts) same d =
    (rw (same t) (find_by_pk-map-none f t.ticket_id ts same d.0), map-Distinct f ts same d.1)

find_by_pk-append-none :
    (id : String) (ts : List Ticket) (t : Ticket)
    → find_by_pk id ts ≡ none
    → str_eq t.ticket_id id ≡ false
    → find_by_pk id (ts ++ t ∷ []) ≡ none
unfolding find_by_pk
find_by_pk-append-none id [] t h k = ground arith
find_by_pk-append-none id (u ∷ us) t h k = ground (arith, find_by_pk-append-none id us t)

-- A row with a key of its own, put last.
pub append-Distinct :
    (t : Ticket) (ts : List Ticket)
    → find_by_pk t.ticket_id ts ≡ none
    → Distinct ts
    → Distinct (ts ++ t ∷ [])
unfolding find_by_pk
append-Distinct t [] new d = (refl, tt)
append-Distinct t (u ∷ us) new d = (
  find_by_pk-append-none u.ticket_id us t d.0
      (ground (arith, eq_iff u.ticket_id t.ticket_id, eq_iff t.ticket_id u.ticket_id)),
  append-Distinct t us (ground arith) d.1,
)

pub append-All :
    (P : Ticket → Type 0) (ts : List Ticket) (t : Ticket) → All P ts → P t → All P (ts ++ t ∷ [])
append-All P [] t h p = (p, tt)
append-All P (u ∷ us) t h p = (h.0, append-All P us t h.1 p)
