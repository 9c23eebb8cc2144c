-- ===== src/Idempotency.antt =====
-- ticket-service/src/helpers/IdempotencyHelper.js: `executeWithIdempotency` for several callers with
-- the same key, interleaved at their awaits. The commands of the Redis client take effect at once;
-- without a connection, or where a command fails, the helper works on the cache in its memory.
pub mod Exclusion
pub mod Replay
pub mod Normalize
use metro_backend.Prelude.{
  ℕ, zero, suc, ◌+◌, Bool, true, false, String, Option, none, some, List, [], ◌∷◌, Result, ok, err,
  if◌then◌else◌, map,
}

-- The lock and the stored result of one key, in one of the two stores.
pub record Cache (R : Type 0) : Type 0 where
  pub locked : Bool
  pub result : Option R

pub data Refusal : Type 0 where
  in_progress already_in_progress : Refusal
  operation_failed : String → Refusal

-- Where a caller waits: `checkKey` before its first and second command, the retry of the check, and
-- the parts after the lock.
pub data Stage (R : Type 0) : Type 0 where
  asking : Stage R
  reading : Bool → Stage R
  asking_again : Stage R
  reading_again : Bool → Stage R
  locking : Stage R
  running : Stage R
  storing : R → Stage R
  clearing : R → Stage R
  releasing : String → Stage R
  finished : Result Refusal R → Stage R

pub record World (R : Type 0) : Type 0 where
  pub redis_up : Bool
  pub redis : Cache R
  pub memory : Cache R
  pub callers : List (Stage R)
  pub runs : ℕ

-- What happens next: a caller goes on, with the outcome of the operation if it runs it, or the
-- surroundings change.
pub data Event (R : Type 0) : Type 0 where
  turn : ℕ → Result String R → Event R
  redis_changes : Bool → Event R
  lock_expires result_expires : Event R

module _ {R : Type 0} where
  -- The store that the helper works on.
  abbrev pub active : World R → Cache R
  active w = if w.redis_up then w.redis else w.memory

  abbrev pub write : World R → Cache R → World R
  write w c = if w.redis_up then record w { redis = c } else record w { memory = c }

  -- After `checkKey`: the stored result, the wait for a retry, or the lock.
  unfoldable pub decide : Bool → Option R → Stage R
  decide locked (some r) = finished (ok r)
  decide true none = asking_again
  decide false none = locking

  unfoldable pub decide_again : Option R → Stage R
  decide_again (some r) = finished (ok r)
  decide_again none = finished (err in_progress)

  -- `checkKey`: two commands of the client, or both reads at once in memory.
  unfoldable pub check_key : (Bool → Stage R) → (Bool → Option R → Stage R) → World R → Stage R
  check_key next answer w =
      if w.redis_up then next w.redis.locked else answer w.memory.locked w.memory.result

  unfoldable pub read_key : (Bool → Option R → Stage R) → Bool → World R → Stage R
  read_key answer seen w =
      if w.redis_up then answer seen w.redis.result else answer w.memory.locked w.memory.result

  -- `lockOperation`: set if not set.
  unfoldable pub lock_operation : World R → World R × Stage R
  lock_operation w =
      if (active w).locked
      then (w, finished (err already_in_progress))
      else (write w (record (active w) { locked = true }), running)

  unfoldable pub after_operation : Result String R → Stage R
  after_operation (ok r) = storing r
  after_operation (err e) = releasing e

  -- `storeResult`: the result and then the lock in Redis, both at once in memory.
  unfoldable pub store_result : R → World R → World R × Stage R
  store_result r w =
      if w.redis_up
      then (record w { redis = record w.redis { result = some r } }, clearing r)
      else (record w { memory = record { locked = false; result = some r } }, finished (ok r))

  unfoldable pub clear_lock : R → World R → World R × Stage R
  clear_lock r w =
      if w.redis_up
      then (record w { redis = record w.redis { locked = false } }, finished (ok r))
      else (record w { memory = record { locked = false; result = some r } }, finished (ok r))

  -- `releaseLock`.
  unfoldable pub release_lock : World R → World R
  release_lock w = write w (record (active w) { locked = false })

  -- One caller goes on to its next await; the operation is counted when it ends.
  unfoldable pub advance : Stage R → Result String R → World R → World R × Stage R
  advance asking o w = (w, check_key reading decide w)
  advance (reading seen) o w = (w, read_key decide seen w)
  advance asking_again o w = (w, check_key reading_again (λ _. decide_again) w)
  advance (reading_again seen) o w = (w, read_key (λ _. decide_again) seen w)
  advance locking o w = lock_operation w
  advance running o w = (record w { runs = w.runs + 1 }, after_operation o)
  advance (storing r) o w = store_result r w
  advance (clearing r) o w = clear_lock r w
  advance (releasing e) o w = (release_lock w, finished (err (operation_failed e)))
  advance (finished r) o w = (w, finished r)

  -- The stage of one caller, and the callers with it changed.
  abbrev pub stage_of : ℕ → List (Stage R) → Option (Stage R)
  stage_of i [] = none
  stage_of zero (c ∷ cs) = some c
  stage_of (suc i) (c ∷ cs) = stage_of i cs

  abbrev pub put_stage : ℕ → Stage R → List (Stage R) → List (Stage R)
  put_stage i s [] = []
  put_stage zero s (c ∷ cs) = s ∷ cs
  put_stage (suc i) s (c ∷ cs) = c ∷ put_stage i s cs

  abbrev pub placed : ℕ → World R × Stage R → World R
  placed i (w, s) = record w { callers = put_stage i s w.callers }

  abbrev pub go_on : ℕ → Result String R → Option (Stage R) → World R → World R
  go_on i o none w = w
  go_on i o (some stage) w = placed i (advance stage o w)

  unfoldable pub take_turn : ℕ → Result String R → World R → World R
  take_turn i o w = go_on i o (stage_of i w.callers) w

  unfoldable pub happen : World R → Event R → World R
  happen w (turn i o) = take_turn i o w
  happen w (redis_changes up) = record w { redis_up = up }
  happen w lock_expires = write w (record (active w) { locked = false })
  happen w result_expires = write w (record (active w) { result = none })

  unfoldable pub happen_all : World R → List (Event R) → World R
  happen_all w [] = w
  happen_all w (e ∷ es) = happen_all (happen w e) es

  -- Turns alone: nothing expires and the connection stays as it is.
  abbrev pub turns : List (ℕ × Result String R) → List (Event R)
  turns = map λ (i, o). turn i o
