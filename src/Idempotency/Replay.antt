-- ===== src/Idempotency/Replay.antt =====
-- A caller that comes after the result is stored, and two callers that come together.
use metro_backend.Prelude.{
  ℕ, zero, suc, ◌==◌, ◌≡◌, Bool, true, false, String, Option, none, some, List, [], ◌∷◌, Result, ok,
  arith, refl, is_ok,
}
use metro_backend.Idempotency.{
  Cache, Stage, asking, reading, finished, World, active, decide, check_key, read_key,
  lock_operation, store_result, clear_lock, release_lock, advance, stage_of, put_stage, go_on,
  take_turn, happen, happen_all, turns,
}

module _ {R : Type 0} where
  abbrev pub has_result : Cache R → Bool
  has_result c = elim c.result [ none ↦ false | some r ↦ true ]

  -- On the way to the stored result, without the lock and the operation.
  unfoldable pub replays : Option (Stage R) → Bool
  replays (some asking) = true
  replays (some (reading b)) = true
  replays (some (finished r)) = is_ok r
  replays _ = false

  advance-has_result :
      (stage : Stage R) (o : Result String R) (w : World R)
      → has_result (active w) ≡ true
      → has_result (active (advance stage o w).0) ≡ true
  unfolding advance check_key read_key lock_operation store_result clear_lock release_lock
  advance-has_result stage o w h = ground arith

  advance-replays :
      (stage : Stage R) (o : Result String R) (w : World R)
      → has_result (active w) ≡ true
      → replays (some stage) ≡ true
      → replays (some (advance stage o w).1) ≡ true
  unfolding advance check_key read_key decide replays
  advance-replays stage o w h c = ground arith

  advance_callers :
      (stage : Stage R) (o : Result String R) (w : World R)
      → (advance stage o w).0.callers ≡ w.callers
  unfolding advance check_key read_key lock_operation store_result clear_lock release_lock
  advance_callers stage o w = ground arith

  -- The stage of a caller after one caller's stage is put.
  stage_of-put_stage :
      (i j : ℕ) (new : Stage R) (cs : List (Stage R))
      → replays (stage_of i cs) ≡ true
      → replays (some new) ≡ true
      → replays (stage_of i (put_stage j new cs)) ≡ true
  stage_of-put_stage i j new [] h k = h
  stage_of-put_stage zero zero new (c ∷ cs) h k = k
  stage_of-put_stage zero (suc j) new (c ∷ cs) h k = h
  stage_of-put_stage (suc i) zero new (c ∷ cs) h k = h
  stage_of-put_stage (suc i) (suc j) new (c ∷ cs) h k = stage_of-put_stage i j new cs h k

  stage_of-put_other :
      (i j : ℕ) (new : Stage R) (cs : List (Stage R))
      → (i == j) ≡ false
      → stage_of i (put_stage j new cs) ≡ stage_of i cs
  stage_of-put_other i j new [] h = refl
  stage_of-put_other zero zero new (c ∷ cs) h = cc
  stage_of-put_other zero (suc j) new (c ∷ cs) h = refl
  stage_of-put_other (suc i) zero new (c ∷ cs) h = refl
  stage_of-put_other (suc i) (suc j) new (c ∷ cs) h = stage_of-put_other i j new cs (ground arith)

  take_turn-replays :
      (i j : ℕ) (o : Result String R) (w : World R)
      → has_result (active w) ≡ true
      → replays (stage_of i w.callers) ≡ true
      → (has_result (active (take_turn j o w)) ≡ true)
        × (replays (stage_of i (take_turn j o w).callers) ≡ true)
  unfolding take_turn
  take_turn-replays i j o w h c = go (stage_of j w.callers) refl
    where
      go :
          (s : Option (Stage R))
          → stage_of j w.callers ≡ s
          → (has_result (active (go_on j o s w)) ≡ true)
            × (replays (stage_of i (go_on j o s w).callers) ≡ true)
      go none e = (h, c)
      go (some stage) e = ground (
        arith,
        advance-has_result stage o w h,
        advance-replays stage o w h,
        advance_callers stage o w,
        stage_of-put_other i j (advance stage o w).1 w.callers,
        stage_of-put_stage i j (advance stage o w).1 w.callers c,
      )

  turns-replays :
      (ts : List (ℕ × Result String R)) (i : ℕ) (w : World R)
      → has_result (active w) ≡ true
      → replays (stage_of i w.callers) ≡ true
      → replays (stage_of i (happen_all w (turns ts)).callers) ≡ true
  unfolding happen_all happen
  turns-replays [] i w h c = c
  turns-replays ((j, o) ∷ ts) i w h c =
      let (h2, c2) = take_turn-replays i j o w h c in turns-replays ts i (take_turn j o w) h2 c2

  -- A caller that has not asked yet when the result of its key is stored is, at any later time, still
  -- asking or answered with a result: it neither takes the lock nor runs the operation nor is
  -- refused, while nothing expires and the connection to Redis stays as it is.
  pub late_caller-replays :
      (ts : List (ℕ × Result String R)) (i : ℕ) (w : World R)
      → has_result (active w) ≡ true
      → stage_of i w.callers ≡ some asking
      → replays (stage_of i (happen_all w (turns ts)).callers) ≡ true
  unfolding replays
  late_caller-replays ts i w h e = turns-replays ts i w h (ground arith)

module _ {R : Type 0} where
  -- Two callers that come together, before anything is stored, with Redis connected.
  abbrev pub two_callers : Cache R → World R
  two_callers memory = record {
    redis_up = true;
    redis = record { locked = false; result = none };
    memory = memory;
    callers = asking ∷ asking ∷ [];
    runs = 0;
  }

  -- The second caller has found nothing before the first caller takes the lock, and takes the lock
  -- after the first caller has stored its result and given the lock back.
  abbrev pub crossing : R → R → List (ℕ × Result String R)
  crossing a b =
      (0, ok a)
      ∷ (0, ok a)
      ∷ (1, ok b)
      ∷ (1, ok b)
      ∷ (0, ok a)
      ∷ (0, ok a)
      ∷ (0, ok a)
      ∷ (0, ok a)
      ∷ (1, ok b)
      ∷ (1, ok b)
      ∷ (1, ok b)
      ∷ (1, ok b)
      ∷ []
