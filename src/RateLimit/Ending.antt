-- ===== src/RateLimit/Ending.antt =====
-- Requests that arrive and are taken back, in any order.
use metro_backend.Prelude.{
  ℕ, zero, suc, ◌+◌, ◌≤◌, ◌≡◌, refl, Bool, true, false, leb, Option, none, some, List, [], ◌∷◌, ℤ,
  pos, negsuc, if◌then◌else◌, arith, Bool-cases, inl, inr, All,
}
use metro_backend.RateLimit.{
  Counter, Store, Link, works, incr_unsent, incr_unanswered, expire_unsent, add_one, less_one,
  is_one, is_over, live, incr, decr, rounded, increment, after_incr, decrement, allows,
}
use metro_backend.RateLimit.Window.{wait_for}

-- A request arrives, an answered one is taken back, time passes, or the connection changes.
pub data Event : Type 0 where
  arrives : Link → Event
  finishes : Event
  waits : ℕ → Event
  connects : Bool → Event

unfoldable pub serve : ℕ → Event → Store → Store
serve window (arrives link) s = (increment link window s).1
serve window finishes s = decrement s
serve window (waits n) s = wait_for n s
serve window (connects up) s = record s { is_open = up }

unfoldable pub serve_all : ℕ → List Event → Store → Store
serve_all window [] s = s
serve_all window (event ∷ events) s = serve_all window events (serve window event s)

abbrev is_counted : ℤ → Bool
is_counted (pos n) = leb 1 n
is_counted (negsuc n) = false

-- An end within a window, or nothing counted.
abbrev Ends : ℕ → ℕ → ℤ → Option ℕ → Type 0
Ends window now hits none = is_counted hits ≡ false
Ends window now hits (some t) = t ≤ now + rounded window

abbrev EndsOf : ℕ → ℕ → Option Counter → Type 0
EndsOf window now none = Unit
EndsOf window now (some c) = Ends window now c.hits c.expires_at

-- What is counted has an end, at most a window away.
abbrev pub IsEnding : ℕ → Store → Type 0
IsEnding window s = EndsOf window s.now s.counter

EndsOf-later :
    (window now n : ℕ) (o : Option Counter) → EndsOf window now o → EndsOf window (now + n) o
EndsOf-later window now n none h = tt
EndsOf-later window now n (some c) h = go c.expires_at h
  where
    go : (e : Option ℕ) → Ends window now c.hits e → Ends window (now + n) c.hits e
    go none h = h
    go (some t) h = omega (arith, h)

live-EndsOf :
    (window now : ℕ) (o : Option Counter) → EndsOf window now o → EndsOf window now (live now o)
live-EndsOf window now none h = tt
live-EndsOf window now (some c) h = elim (Bool-cases (is_over now c.expires_at)) [
  | inl over ↦ rw over tt
  | inr lasts ↦ rw lasts h
]

decr-EndsOf :
    (window now : ℕ) (o : Option Counter) → EndsOf window now o → EndsOf window now (some (decr o))
decr-EndsOf window now none h = refl
decr-EndsOf window now (some c) h = go c.hits c.expires_at h
  where
    go : (z : ℤ) (e : Option ℕ) → Ends window now z e → Ends window now (less_one z) e
    go z (some t) h = h
    go (pos zero) none h = refl
    go (pos (suc n)) none h = ground (arith, h)
    go (negsuc n) none h = refl

incr-Ends :
    (window now : ℕ) (o : Option Counter)
    → EndsOf window now o
    → Ends window now
        (incr o).hits
        (if is_one (incr o).hits then some (now + rounded window) else (incr o).expires_at)
incr-Ends window now none h = omega arith
incr-Ends window now (some c) h = go c.hits c.expires_at h
  where
    counted :
        (z : ℤ) (e : Option ℕ)
        → Ends window now z e
        → is_one (add_one z) ≡ false
        → Ends window now (add_one z) e
    counted z (some t) h other = h
    counted (pos n) none h other = ground (arith, h, other)
    counted (negsuc zero) none h other = refl
    counted (negsuc (suc n)) none h other = refl

    go :
        (z : ℤ) (e : Option ℕ)
        → Ends window now z e
        → Ends window now
            (add_one z)
            (if is_one (add_one z) then some (now + rounded window) else e)
    go z e h = elim (Bool-cases (is_one (add_one z))) [
      | inl one ↦ rw one (omega arith)
      | inr other ↦ rw other (counted z e h other)
    ]

-- A count that Redis took gets its end: the connection does not break between the two commands.
abbrev pub HasEnd : Event → Type 0
HasEnd (arrives incr_unanswered) = ⊥
HasEnd (arrives expire_unsent) = ⊥
HasEnd _ = Unit

serve-IsEnding :
    (window : ℕ) (event : Event) (s : Store)
    → HasEnd event
    → IsEnding window s
    → IsEnding window (serve window event s)
unfolding serve increment decrement
serve-IsEnding window (arrives incr_unsent) s e h = h
serve-IsEnding window (arrives incr_unanswered) s e h = elim e [ ]
serve-IsEnding window (arrives expire_unsent) s e h = elim e [ ]
serve-IsEnding window (arrives works) s e h = elim (Bool-cases s.is_open) [
  | inr shut ↦ rw shut h
  | inl up ↦
      let after =
        incr-Ends window s.now (live s.now s.counter) (live-EndsOf window s.now s.counter h) in
      elim (Bool-cases (is_one (incr (live s.now s.counter)).hits)) [
        | inl one ↦ rw (up, one) (omega arith)
        | inr other ↦ rw (up, other) (rw other at after)
      ]
]
serve-IsEnding window finishes s e h = elim (Bool-cases s.is_open) [
  | inr shut ↦ rw shut h
  | inl up ↦
      rw up (decr-EndsOf window s.now (live s.now s.counter) (live-EndsOf window s.now s.counter h))
]
serve-IsEnding window (waits n) s e h = EndsOf-later window s.now n s.counter h
serve-IsEnding window (connects up) s e h = h

serve_all-IsEnding :
    (window : ℕ) (events : List Event) (s : Store)
    → All HasEnd events
    → IsEnding window s
    → IsEnding window (serve_all window events s)
unfolding serve_all
serve_all-IsEnding window [] s es h = h
serve_all-IsEnding window (event ∷ events) s es h =
    serve_all-IsEnding window events (serve window event s) es.1
      (serve-IsEnding window event s es.0 h)

works-rested :
    (window max : ℕ) (s : Store)
    → IsEnding window s
    → 1 ≤ max
    → allows max (increment works window (wait_for (rounded window) s)).0 ≡ true
unfolding increment
works-rested window max s h few = elim (Bool-cases s.is_open) [
  | inr shut ↦ rw shut (ground (arith, few))
  | inl up ↦ rw up (after s.counter h)
]
  where
    fresh :
        (z : ℤ) (e : Option ℕ)
        → Ends window s.now z e
        → allows max
            (incr (
              if is_over (s.now + rounded window) e
              then none
              else some (record { hits = z; expires_at = e }))).hits
          ≡ true
    fresh z (some t) h = ground (arith, h, few)
    fresh (pos n) none h = ground (arith, h, few)
    fresh (negsuc zero) none h = ground (arith, few)
    fresh (negsuc (suc n)) none h = refl

    after :
        (o : Option Counter)
        → EndsOf window s.now o
        → allows max (incr (live (s.now + rounded window) o)).hits ≡ true
    after none h = ground (arith, few)
    after (some c) h = fresh c.hits c.expires_at h

unsent-allows :
    (window max : ℕ) (counter : Counter) (s : Store)
    → 1 ≤ max
    → allows max (after_incr works window counter s).0 ≡ true
    → allows max (after_incr expire_unsent window counter s).0 ≡ true
unsent-allows window max counter s few h = elim (Bool-cases (is_one counter.hits)) [
  | inl one ↦ rw one (ground (arith, few))
  | inr other ↦ rw other h
]

rested :
    (link : Link) (window max : ℕ) (s : Store)
    → IsEnding window s
    → 1 ≤ max
    → allows max (increment link window (wait_for (rounded window) s)).0 ≡ true
unfolding increment
rested incr_unsent window max s h few = ground (arith, few)
rested incr_unanswered window max s h few = ground (arith, few)
rested works window max s h few = works-rested window max s h few
rested expire_unsent window max s h few =
    let after = works-rested window max s h few in
    elim (Bool-cases s.is_open) [
      | inr shut ↦ rw shut (ground (arith, few))
      | inl up ↦ rw up (
          unsent-allows window max (incr (live (s.now + rounded window) s.counter)) s few
            (rw up at after))
    ]

-- From a store where what is counted ends within a window, after any requests that arrive and are
-- taken back, while the connection comes and goes but never breaks between an `INCR` that Redis
-- takes and the `EXPIRE` after it: after a window without a request the next one is let through,
-- by a limiter that lets any through, even if the connection breaks while that one is counted.
pub serve_all-rested :
    (link : Link) (window max : ℕ) (events : List Event) (s : Store)
    → All HasEnd events
    → IsEnding window s
    → 1 ≤ max
    → allows max (increment link window (wait_for (rounded window) (serve_all window events s))).0
      ≡ true
serve_all-rested link window max events s es h few =
    rested link window max (serve_all window events s) (serve_all-IsEnding window events s es h) few
