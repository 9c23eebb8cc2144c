-- ===== src/Ticket/Calendar.antt =====
-- ticket-service/src/services/ticket/domain/TicketValidityService.js, with the parts of `Date` that
-- it uses. The host's zone is UTC, so a calendar day has 86,400,000 milliseconds.
use metro_backend.Prelude.{ℕ, ◌+◌, ◌-◌, ◌*◌, ◌/◌, ◌%◌, ◌≤◌, ◌≡◌, ◌⊎◌, ◌<◌, arith}
use metro_backend.Ticket.{
  TicketType, oneway, return, day_pass, weekly_pass, monthly_pass, yearly_pass, lifetime_pass,
}

abbrev pub day_ms : ℕ
day_ms = 86_400_000

-- `d.setDate(d.getDate() + n)`.
abbrev pub add_days : ℕ → ℕ → ℕ
add_days n t = t + n * day_ms

-- The days before 1 March of a year, from 1 March of the year 0.
year_start : ℕ → ℕ
year_start y = 365 * y + y / 4 - y / 100 + y / 400

-- The year, begun on 1 March, in which a day lies.
march_year : ℕ → ℕ
march_year d =
    let e = d % 146_097 in 400 * (d / 146_097) + (e - e / 1460 + e / 36_524 - e / 146_096) / 365

-- 1 January 1970 is day 719,468 from 1 March of the year 0.
abbrev epoch : ℕ
epoch = 719_468

-- `d.setFullYear(d.getFullYear() + n)`: the same month and day, and 29 February becomes 1 March.
unfoldable pub add_years : ℕ → ℕ → ℕ
unfolding year_start march_year
add_years n t =
    let d = t / day_ms + epoch in
    let y = march_year d in (year_start (y + n) + (d - year_start y) - epoch) * day_ms + t % day_ms

unfoldable pub valid_until_of : TicketType → ℕ → ℕ
unfolding add_years
valid_until_of day_pass now = add_days 1 now
valid_until_of weekly_pass now = add_days 7 now
valid_until_of monthly_pass now = add_days 30 now
valid_until_of yearly_pass now = add_days 365 now
valid_until_of lifetime_pass now = add_years 100 now
valid_until_of oneway now = add_days 30 now
valid_until_of return now = add_days 30 now

-- `calculateValidityPeriod`: from now until the end of the type's term.
abbrev pub calculate_validity_period : TicketType → ℕ → ℕ × ℕ
calculate_validity_period type now = (now, valid_until_of type now)

-- A century has 36,524 or 36,525 days.
year_start-century :
    (y : ℕ)
    → (year_start (y + 100) ≡ year_start y + 36_524)
      ⊎ (year_start (y + 100) ≡ year_start y + 36_525)
unfolding year_start
year_start-century y = omega arith

-- Within a cycle of 400 years: a year's start is no later than the day that it is found from.
cycle_start :
    (e : ℕ)
    → e < 146_097
    → let y = (e - e / 1460 + e / 36_524 - e / 146_096) / 365 in 365 * y + y / 4 - y / 100 ≤ e
cycle_start e h = omega arith

year_start-march_year-le : (d : ℕ) → year_start (march_year d) ≤ d
unfolding year_start march_year
year_start-march_year-le d = omega (arith, cycle_start (d % 146_097) (omega arith))

pub add_years-century :
    (t : ℕ) → (add_years 100 t ≡ t + 36_524 * day_ms) ⊎ (add_years 100 t ≡ t + 36_525 * day_ms)
unfolding add_years
add_years-century t = omega (
  arith,
  year_start-century (march_year (t / day_ms + epoch)),
  year_start-march_year-le (t / day_ms + epoch),
)
