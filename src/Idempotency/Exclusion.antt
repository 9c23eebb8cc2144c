-- ===== src/Idempotency/Exclusion.antt =====
-- At most one caller at a time holds the lock of a key.
use metro_backend.Prelude.{
  ℕ, zero, suc, ◌+◌, ◌≤◌, ◌≡◌, Bool, true, false, String, Option, none, some, List, [], ◌∷◌, Result,
  arith, refl,
}
use metro_backend.Idempotency.{
  Stage, asking, reading, asking_again, reading_again, locking, running, storing, clearing,
  releasing, finished, World, active, decide, decide_again, check_key, read_key, lock_operation,
  after_operation, store_result, clear_lock, release_lock, advance, stage_of, put_stage, go_on,
  take_turn, happen, happen_all, turns,
}

abbrev pub bit : Bool → ℕ
bit true = 1
bit false = 0

bit-le : (b : Bool) → bit b ≤ 1
bit-le true = omega arith
bit-le false = omega arith

module _ {R : Type 0} where
  -- A caller that has the lock and has not given it back.
  unfoldable pub holds : Stage R → ℕ
  holds running = 1
  holds (storing r) = 1
  holds (clearing r) = 1
  holds (releasing e) = 1
  holds asking = 0
  holds (reading b) = 0
  holds asking_again = 0
  holds (reading_again b) = 0
  holds locking = 0
  holds (finished r) = 0

  unfoldable pub holders : List (Stage R) → ℕ
  holders [] = 0
  holders (c ∷ cs) = holds c + holders cs

  holders-put_stage :
      (i : ℕ) (old new : Stage R) (cs : List (Stage R))
      → stage_of i cs ≡ some old
      → holders (put_stage i new cs) + holds old ≡ holders cs + holds new
  unfolding holders
  holders-put_stage i old new [] e = cc
  holders-put_stage zero old new (c ∷ cs) e = ground arith
  holders-put_stage (suc i) old new (c ∷ cs) e = ground (arith, holders-put_stage i old new cs e)

  -- The lock is set exactly while a caller holds it.
  pub record IsExclusive (w : World R) : Type 0 where
    pub held : holders w.callers ≡ bit (active w).locked

  advance_lock :
      (stage : Stage R) (o : Result String R) (w : World R)
      → holds stage ≤ bit (active w).locked
      → (bit (active (advance stage o w).0).locked + holds stage
          ≡ bit (active w).locked + holds (advance stage o w).1)
        × ((advance stage o w).0.callers ≡ w.callers)
  unfolding advance holds check_key read_key decide decide_again lock_operation after_operation
      store_result clear_lock release_lock
  advance_lock stage o w l = ground arith

  holds-holders-le :
      (i : ℕ) (stage : Stage R) (cs : List (Stage R))
      → stage_of i cs ≡ some stage
      → holds stage ≤ holders cs
  unfolding holders
  holds-holders-le i stage [] e = cc
  holds-holders-le zero stage (c ∷ cs) e = ground arith
  holds-holders-le (suc i) stage (c ∷ cs) e = ground (arith, holds-holders-le i stage cs e)

  take_turn-IsExclusive :
      (i : ℕ) (o : Result String R) (w : World R) → IsExclusive w → IsExclusive (take_turn i o w)
  unfolding take_turn
  take_turn-IsExclusive i o w x = go (stage_of i w.callers) refl
    where
      go : (c : Option (Stage R)) → stage_of i w.callers ≡ c → IsExclusive (go_on i o c w)
      go none e = x
      go (some stage) e =
          let (lock, same) =
            advance_lock stage o w (omega (arith, holds-holders-le i stage w.callers e, x.held)) in
          let w2 = (advance stage o w).0 in
          let put = holders-put_stage i stage (advance stage o w).1 w.callers e in
          record { held = rw same (omega (arith, lock, put, x.held)) }

  turns-IsExclusive :
      (ts : List (ℕ × Result String R)) (w : World R)
      → IsExclusive w
      → IsExclusive (happen_all w (turns ts))
  unfolding happen_all happen
  turns-IsExclusive [] w x = x
  turns-IsExclusive ((i, o) ∷ ts) w x =
      turns-IsExclusive ts (take_turn i o w) (take_turn-IsExclusive i o w x)

  -- While nothing expires and the connection to Redis stays as it is, with or without it: from a
  -- state in which the lock is set exactly while a caller holds it, at most one caller holds it at
  -- any later time, however the callers' turns are interleaved and whatever the operation answers.
  pub holders-le :
      (ts : List (ℕ × Result String R)) (w : World R)
      → IsExclusive w
      → holders (happen_all w (turns ts)).callers ≤ 1
  holders-le ts w x =
      let after = (turns-IsExclusive ts w x).held in
      omega (arith, after, bit-le (active (happen_all w (turns ts))).locked)
