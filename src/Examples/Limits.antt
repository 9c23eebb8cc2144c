-- ===== src/Examples/Limits.antt =====
-- A burst of requests, and a counter that is taken back after its end.
use metro_backend.Prelude.{
  ℕ, ◌<◌, ◌-◌, ◌≡◌, refl, true, false, none, List, [], ◌∷◌, arith, All, min, length,
}
use metro_backend.RateLimit.{Store, works, incr_unsent, expire_unsent, increment, allows, rounded}
use metro_backend.RateLimit.Window.{
  total_wait, wait_for, allowed_of, allowed_of-min, allowed_of-unending,
}
use metro_backend.RateLimit.Ending.{
  Event, HasEnd, arrives, finishes, waits, connects, serve_all, serve_all-rested,
}

abbrev fresh : Store
fresh = record { now = 5_000; is_open = true; counter = none }

-- Four requests within a second, of which a limiter of two lets the first two through.
abbrev burst : List ℕ
burst = 100 ∷ 300 ∷ 50 ∷ []

burst-wait : total_wait burst < rounded 1_000
unfolding total_wait
burst-wait = omega arith

abbrev slow : List Event
slow =
    arrives works
    ∷ waits 1_500
    ∷ finishes
    ∷ arrives works
    ∷ arrives incr_unsent
    ∷ connects false
    ∷ arrives works
    ∷ connects true
    ∷ arrives works
    ∷ arrives works
    ∷ []

slow-HasEnd : All HasEnd slow
slow-HasEnd = ground arith

serve_all-rested_example :
    allows 1
      (increment expire_unsent 1_000 (wait_for (rounded 1_000) (serve_all 1_000 slow fresh))).0
    ≡ true
serve_all-rested_example =
    serve_all-rested expire_unsent 1_000 1 slow fresh slow-HasEnd tt (omega arith)

-- Days between the requests.
abbrev rare : List ℕ
rare = 90_000_000 ∷ 90_000_000 ∷ 90_000_000 ∷ []

allowed_of-unending_example :
    allowed_of 1_000 2 rare (increment expire_unsent 1_000 fresh).1 ≡ min (length rare) (2 - 1)
allowed_of-unending_example = allowed_of-unending 1_000 2 rare fresh refl refl

allowed_of-min_example : allowed_of 1_000 2 (700 ∷ burst) fresh ≡ min (length (700 ∷ burst)) 2
allowed_of-min_example = allowed_of-min 1_000 2 700 burst fresh refl refl burst-wait
