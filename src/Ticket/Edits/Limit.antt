-- ===== src/Ticket/Edits/Limit.antt =====
-- The edits and deletions of staff against the limit on uses and against a row that is kept.
use metro_backend.Prelude.{
  ◌≡◌, Bool, true, false, not, ◌&&◌, String, str_eq, eq_iff, Option, none, some, List, [], ◌∷◌,
  keep, All, refl, arith, subst, sym, Bool-cases, inl, inr,
}
use metro_backend.Ticket.{
  Ticket, System, find_by_pk, update, ticket_not_found, find_by_pk-ticket_id,
}
use metro_backend.Ticket.Rows.{Distinct}
use metro_backend.Ticket.Rules.{with_ticket_state}
use metro_backend.Ticket.Edits.{Edit, edited, update_ticket, destroy, delete_ticket}
use metro_backend.Ticket.UseLimit.{
  IsWithinLimit, RowsWithinLimit, update-RowsWithinLimit, found-IsWithinLimit,
}
use metro_backend.Ticket.Cancelled.{IsKept, update-IsKept}

abbrev is_missing : {A : Type 0} → Option A → Bool
is_missing none = true
is_missing (some a) = false

-- The body has neither the type, nor the status, nor the list of uses.
abbrev pub leaves_use : Edit → Bool
leaves_use e = is_missing e.ticket_type && (is_missing e.status && is_missing e.used_list)

edited-IsWithinLimit :
    (e : Edit) (t : Ticket) → leaves_use e ≡ true → IsWithinLimit t → IsWithinLimit (edited e t)
edited-IsWithinLimit e t h w = ground (arith, h, w)

pub update_ticket-RowsWithinLimit :
    (id : String) (e : Edit) (s : System)
    → leaves_use e ≡ true
    → RowsWithinLimit s
    → RowsWithinLimit (update_ticket id e s).1
unfolding update_ticket
update_ticket-RowsWithinLimit id e s h w =
    with_ticket_state RowsWithinLimit id ticket_not_found (λ t. update (edited e t)) s w
      λ t found.
        update-RowsWithinLimit (edited e t) s
          (edited-IsWithinLimit e t h (found-IsWithinLimit id s w t found)) w

keep-All :
    (P : Ticket → Type 0) (p : Ticket → Bool) (ts : List Ticket) → All P ts → All P (keep p ts)
keep-All P p [] h = tt
keep-All P p (t ∷ ts) h = elim (Bool-cases (p t)) [
  | inl stays ↦ rw stays (h.0, keep-All P p ts h.1)
  | inr goes ↦ rw goes (keep-All P p ts h.1)
]

find_by_pk-keep-none :
    (id : String) (p : Ticket → Bool) (ts : List Ticket)
    → find_by_pk id ts ≡ none
    → find_by_pk id (keep p ts) ≡ none
unfolding find_by_pk
find_by_pk-keep-none id p [] h = refl
find_by_pk-keep-none id p (t ∷ ts) h = ground (arith, h, find_by_pk-keep-none id p ts)

keep-Distinct : (p : Ticket → Bool) (ts : List Ticket) → Distinct ts → Distinct (keep p ts)
keep-Distinct p [] d = tt
keep-Distinct p (t ∷ ts) d = elim (Bool-cases (p t)) [
  | inl stays ↦ rw stays (find_by_pk-keep-none t.ticket_id p ts d.0, keep-Distinct p ts d.1)
  | inr goes ↦ rw goes (keep-Distinct p ts d.1)
]

pub delete_ticket-RowsWithinLimit :
    (id : String) (s : System) → RowsWithinLimit s → RowsWithinLimit (delete_ticket id s).1
unfolding delete_ticket
delete_ticket-RowsWithinLimit id s w = go (find_by_pk id s.tickets)
  where
    go : (o : Option Ticket) → RowsWithinLimit (destroy o id s).1
    go none = w
    go (some t) = record {
      rows = keep-All IsWithinLimit (λ u. not (str_eq u.ticket_id id)) s.tickets w.rows;
      keyed = keep-Distinct (λ u. not (str_eq u.ticket_id id)) s.tickets w.keyed;
    }

find_by_pk-keep :
    (key id : String) (ts : List Ticket)
    → str_eq id key ≡ false
    → find_by_pk key (keep (λ u. not (str_eq u.ticket_id id)) ts) ≡ find_by_pk key ts
unfolding find_by_pk
find_by_pk-keep key id [] n = refl
find_by_pk-keep key id (t ∷ ts) n = ground (
  arith,
  n,
  eq_iff t.ticket_id id,
  eq_iff t.ticket_id key,
  eq_iff id key,
  find_by_pk-keep key id ts n,
)

module _ (t : Ticket) (id : String) (other : str_eq id t.ticket_id ≡ false) where
  pub update_ticket-IsKept :
      (e : Edit) (s : System) → IsKept t s → IsKept t (update_ticket id e s).1
  unfolding update_ticket
  update_ticket-IsKept e s k =
      with_ticket_state (IsKept t) id ticket_not_found (λ u. update (edited e u)) s k
        λ u found. update-IsKept t (edited e u) s k (
          subst (λ i. str_eq i t.ticket_id ≡ false)
            (sym (find_by_pk-ticket_id id s.tickets u found)) other)

  pub delete_ticket-IsKept : (s : System) → IsKept t s → IsKept t (delete_ticket id s).1
  unfolding delete_ticket
  delete_ticket-IsKept s k = go (find_by_pk id s.tickets)
    where
      go : (o : Option Ticket) → IsKept t (destroy o id s).1
      go none = k
      go (some u) = record { kept = rw (find_by_pk-keep t.ticket_id id s.tickets other) k.kept }
