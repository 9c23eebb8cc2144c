-- ===== src/Examples/Sharing.antt =====
-- Two callers with the same idempotency key.
use metro_backend.Prelude.{ℕ, ◌≡◌, ◌≤◌, refl, none, some, [], ◌∷◌, true, false, ok}
use metro_backend.Idempotency.{Cache, asking, finished, World, stage_of, happen_all, turns}
use metro_backend.Idempotency.Exclusion.{IsExclusive, holds, holders, holders-le}
use metro_backend.Idempotency.Replay.{replays, two_callers, crossing, late_caller-replays}

abbrev empty : Cache ℕ
empty = record { locked = false; result = none }

-- One caller is done, another comes.
abbrev late : World ℕ
late = record {
  redis_up = true;
  redis = record { locked = false; result = some 7 };
  memory = empty;
  callers = finished (ok 7) ∷ asking ∷ [];
  runs = 1;
}

two_callers-IsExclusive : IsExclusive (two_callers empty)
unfolding holders holds
two_callers-IsExclusive = record { held = refl }

holders-le_example : holders (happen_all (two_callers empty) (turns (crossing 7 8))).callers ≤ 1
holders-le_example = holders-le (crossing 7 8) (two_callers empty) two_callers-IsExclusive

late_caller-replays_example :
    replays (stage_of 1 (happen_all late (turns ((1, ok 8) ∷ (1, ok 8) ∷ []))).callers) ≡ true
late_caller-replays_example = late_caller-replays ((1, ok 8) ∷ (1, ok 8) ∷ []) 1 late refl refl
