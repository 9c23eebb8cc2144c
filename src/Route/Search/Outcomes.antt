-- ===== src/Route/Search/Outcomes.antt =====
-- The ways in which a turn of the search's loop goes on.
use metro_backend.Prelude.{
  ℕ, List, ◌≡◌, refl, Bool, true, false, ◌&&◌, String, str_eq, Option, none, some, Bool-cases, inl,
  inr,
}
use metro_backend.Route.Queue.{Entry, PriorityQueue}
use metro_backend.Route.Search.{Edge, Search, Outcome, unreachable, arrived, is_current, outcome_of}

module _ (queue : PriorityQueue) (edges : String → List Edge) (penalty : ℕ) (destination : String)
    (s : Search queue) where
  -- The popped state is not stale, and it is at the destination.
  abbrev pub arrives : Entry → Bool
  arrives cur = is_current (s.dist cur.node) cur.dist && str_eq cur.node.station_id destination

  -- What holds of the answers and of the turns that follow holds of the outcome.
  pub outcome_of-cases :
      (P : Outcome queue → Type 0) (next : Entry → queue.Q → Outcome queue)
      → (queue.pop s.waiting ≡ none → P unreachable)
      → ((cur : Entry) (rest : queue.Q)
          → queue.pop s.waiting ≡ some (cur, rest)
          → arrives cur ≡ true
          → P (arrived cur (record s { waiting = rest })))
      → ((cur : Entry) (rest : queue.Q)
          → queue.pop s.waiting ≡ some (cur, rest)
          → arrives cur ≡ false
          → P (next cur rest))
      → P (outcome_of queue edges penalty destination s next (queue.pop s.waiting))
  outcome_of-cases P next empty found on = go (queue.pop s.waiting) refl
    where
      go :
          (o : Option (Entry × queue.Q))
          → queue.pop s.waiting ≡ o
          → P (outcome_of queue edges penalty destination s next o)
      go none e = empty e
      go (some (cur, rest)) e = elim (Bool-cases (arrives cur)) [
        | inl there ↦ rw there (found cur rest e there)
        | inr away ↦ rw away (on cur rest e away)
      ]
