-- ===== src/RateLimit.antt =====
-- api-gateway/src/middlewares/rateLimiter.js: the store of the rate limiters in Redis, for one key. The
-- connection is open or not, and may break while a request is counted. A limiter lets a request through as
-- long as the hits are not above its maximum.
pub mod Window
pub mod Ending
use metro_backend.Prelude.{
  ℕ, zero, suc, ◌+◌, ◌*◌, ◌/◌, Bool, true, false, not, ltb, leb, ◌==◌, Option, none, some, List, [],
  ◌∷◌, ℤ, pos, negsuc, if◌then◌else◌,
}

-- A number in Redis, and when it goes away.
pub record Counter : Type 0 where
  pub hits : ℤ
  pub expires_at : Option ℕ

pub record Store : Type 0 where
  pub now : ℕ
  pub is_open : Bool
  pub counter : Option Counter

abbrev pub add_one : ℤ → ℤ
add_one (pos n) = pos (n + 1)
add_one (negsuc zero) = pos 0
add_one (negsuc (suc n)) = negsuc n

abbrev pub less_one : ℤ → ℤ
less_one (pos zero) = negsuc 0
less_one (pos (suc n)) = pos n
less_one (negsuc n) = negsuc (n + 1)

abbrev pub is_one : ℤ → Bool
is_one (pos n) = n == 1
is_one (negsuc n) = false

abbrev pub is_over : ℕ → Option ℕ → Bool
is_over now none = false
is_over now (some t) = leb t now

-- The counter that Redis has, unless it went away.
abbrev pub live : ℕ → Option Counter → Option Counter
live now none = none
live now (some c) = if is_over now c.expires_at then none else some c

-- `INCR` and `DECR`: a counter that is missing counts as 0 and has no end.
abbrev pub incr : Option Counter → Counter
incr none = record { hits = pos 1; expires_at = none }
incr (some c) = record c { hits = add_one c.hits }

abbrev pub decr : Option Counter → Counter
decr none = record { hits = negsuc 0; expires_at = none }
decr (some c) = record c { hits = less_one c.hits }

-- `Math.ceil(windowMs / 1000)` seconds.
abbrev pub rounded : ℕ → ℕ
rounded window = (window + 999) / 1000 * 1000

-- How the connection carries one request, which sends `INCR`, awaits it, and then may send `EXPIRE`:
-- it works, or it breaks before `INCR` is sent, before its answer, or before `EXPIRE` is sent. A
-- break before the answer of `EXPIRE` leaves what one that works leaves.
pub data Link : Type 0 where
  works incr_unsent incr_unanswered expire_unsent : Link

abbrev counted : Option Counter → Store → Store
counted counter s = record s { counter = counter }

-- The answer to `INCR` is here, and the link is what is left of it.
abbrev pub after_incr : Link → ℕ → Counter → Store → ℤ × Store
after_incr expire_unsent window counter s =
    ((if is_one counter.hits then pos 1 else counter.hits), counted (some counter) s)
after_incr _ window counter s = (
  counter.hits,
  counted
      (some (
        if is_one counter.hits
        then record counter { expires_at = some (s.now + rounded window) }
        else counter))
      s,
)

-- `increment`: the total hits, and the store after it. An error is caught and answered as one hit.
unfoldable pub increment : Link → ℕ → Store → ℤ × Store
increment incr_unsent window s = (pos 1, s)
increment incr_unanswered window s =
    (pos 1, if s.is_open then counted (some (incr (live s.now s.counter))) s else s)
increment link window s =
    if s.is_open then after_incr link window (incr (live s.now s.counter)) s else (pos 1, s)

unfoldable pub decrement : Store → Store
decrement s = if s.is_open then record s { counter = some (decr (live s.now s.counter)) } else s

-- A limiter with a maximum lets a request with these hits through.
abbrev pub allows : ℕ → ℤ → Bool
allows max (pos n) = leb n max
allows max (negsuc n) = true
