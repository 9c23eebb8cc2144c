-- ===== src/RateLimit/Window.antt =====
-- How many requests a window lets through.
use metro_backend.Prelude.{
  ℕ, ◌+◌, ◌-◌, ◌≤◌, ◌<◌, ◌≡◌, ◌∙◌, ap, refl, min, true, false, leb, ◌==◌, none, some, List, [], ◌∷◌,
  pos, length, if◌then◌else◌, arith,
}
use metro_backend.RateLimit.{Store, works, expire_unsent, live, rounded, increment, allows}

abbrev pub wait_for : ℕ → Store → Store
wait_for n s = record s { now = s.now + n }

unfoldable pub total_wait : List ℕ → ℕ
total_wait [] = 0
total_wait (n ∷ waits) = n + total_wait waits

-- Requests with waits before them: how many a limiter lets through.
unfoldable pub allowed_of : ℕ → ℕ → List ℕ → Store → ℕ
allowed_of window max [] s = 0
allowed_of window max (n ∷ waits) s =
    let (hits, after) = increment works window (wait_for n s) in
    (if allows max hits then 1 else 0) + allowed_of window max waits after

increment-live :
    (window n end : ℕ) (s : Store)
    → s.is_open ≡ true
    → s.counter ≡ some (record { hits = pos n; expires_at = some end })
    → 1 ≤ n
    → s.now < end
    → increment works window s ≡ (
      pos (n + 1),
      record s { counter = some (record { hits = pos (n + 1); expires_at = some end }) },
    )
unfolding increment
increment-live window n end s opened here counted early =
    let later : leb end s.now ≡ false = ground (arith, early) in
    let more : (n + 1 == 1) ≡ false = ground (arith, counted) in rw (opened, here, later, more) refl

increment-none :
    (window : ℕ) (s : Store)
    → s.is_open ≡ true
    → live s.now s.counter ≡ none
    → increment works window s ≡ (
      pos 1,
      record s {
        counter = some (record { hits = pos 1; expires_at = some (s.now + rounded window) });
      },
    )
unfolding increment
increment-none window s opened nothing = rw (opened, nothing) refl

-- Inside a window the hits go up one by one.
counting :
    (window max n end : ℕ) (waits : List ℕ) (s : Store)
    → s.is_open ≡ true
    → s.counter ≡ some (record { hits = pos n; expires_at = some end })
    → 1 ≤ n
    → s.now + total_wait waits < end
    → allowed_of window max waits s ≡ min (length waits) (max - n)
unfolding allowed_of total_wait
counting window max n end [] s opened here counted early = ground arith
counting window max n end (w ∷ waits) s opened here counted early =
    let after = record (wait_for w s) {
      counter = some (record { hits = pos (n + 1); expires_at = some end });
    } in
    rw (increment-live window n end (wait_for w s) opened here counted (omega (arith, early))) (
      ground (
        arith,
        counting window max (n + 1) end waits after opened refl (omega arith)
            (omega (arith, early)),
      ))

-- In a window that begins with its first request a limiter lets through as many requests as there
-- are, up to its maximum, while the connection is open.
pub allowed_of-min :
    (window max first : ℕ) (waits : List ℕ) (s : Store)
    → s.is_open ≡ true
    → live (s.now + first) s.counter ≡ none
    → total_wait waits < rounded window
    → allowed_of window max (first ∷ waits) s ≡ min (length (first ∷ waits)) max
unfolding allowed_of
allowed_of-min window max first waits s opened nothing early =
    let after = record (wait_for first s) {
      counter = some (record { hits = pos 1; expires_at = some (s.now + first + rounded window) });
    } in
    rw (increment-none window (wait_for first s) opened nothing) (
      ground (
        arith,
        counting window max 1 (s.now + first + rounded window) waits after opened refl (omega arith)
            (omega (arith, early)),
      ))

increment-unending :
    (window n : ℕ) (s : Store)
    → s.is_open ≡ true
    → s.counter ≡ some (record { hits = pos n; expires_at = none })
    → 1 ≤ n
    → increment works window s ≡ (
      pos (n + 1),
      record s { counter = some (record { hits = pos (n + 1); expires_at = none }) },
    )
unfolding increment
increment-unending window n s opened here some_hits =
    let more : (n + 1 == 1) ≡ false = ground (arith, some_hits) in rw (opened, here, more) refl

-- Without an end the hits go up one by one for ever.
counting_on :
    (window max n : ℕ) (waits : List ℕ) (s : Store)
    → s.is_open ≡ true
    → s.counter ≡ some (record { hits = pos n; expires_at = none })
    → 1 ≤ n
    → allowed_of window max waits s ≡ min (length waits) (max - n)
unfolding allowed_of
counting_on window max n [] s opened here some_hits = ground arith
counting_on window max n (w ∷ waits) s opened here some_hits =
    let after = record (wait_for w s) {
      counter = some (record { hits = pos (n + 1); expires_at = none });
    } in
    rw (increment-unending window n (wait_for w s) opened here some_hits)
      (ground (arith, counting_on window max (n + 1) waits after opened refl (omega arith)))

increment-unsent :
    (window : ℕ) (s : Store)
    → s.is_open ≡ true
    → live s.now s.counter ≡ none
    → increment expire_unsent window s
      ≡ (pos 1, record s { counter = some (record { hits = pos 1; expires_at = none }) })
unfolding increment
increment-unsent window s opened nothing = rw (opened, nothing) refl

-- Where the counter is missing or over and the connection breaks between `INCR` and `EXPIRE` of one
-- request: of all the requests that follow while the connection is open and works, however long
-- each of them waits, as many are let through as there are, up to one less than the maximum.
pub allowed_of-unending :
    (window max : ℕ) (waits : List ℕ) (s : Store)
    → s.is_open ≡ true
    → live s.now s.counter ≡ none
    → allowed_of window max waits (increment expire_unsent window s).1
      ≡ min (length waits) (max - 1)
allowed_of-unending window max waits s opened nothing =
    let after = record s { counter = some (record { hits = pos 1; expires_at = none }) } in
    ap (λ r. allowed_of window max waits r.1) (increment-unsent window s opened nothing)
    ∙ counting_on window max 1 waits after opened refl (omega arith)
