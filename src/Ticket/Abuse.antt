-- ===== src/Ticket/Abuse.antt =====
-- ticket-service/src/services/ticket/handlers/TicketAbused.js: two uses within ten seconds, or more
-- than three uses of a pass within a minute, lock a ticket.
use metro_backend.Prelude.{
  ◌⊎◌, inl, inr, ◌≢◌, ℕ, ◌+◌, ◌-◌, ◌*◌, ◌≡◌, refl, Bool, not, ◌&&◌, List, [], ◌∷◌, ltb, leb,
  if◌then◌else◌, ◌>>=◌, pure, sort, length, keep, ok,
}
use metro_backend.Ticket.{Ticket, Handler, is_short_term, abused, update}

pub data Verdict : Type 0 where
  no_abuse two_within_ten_seconds more_than_three_in_a_minute : Verdict

-- `times[times.length - 2]` and `times[times.length - 1]`.
unfoldable pub last_two : List ℕ → ℕ × ℕ
last_two [] = (0, 0)
last_two (a ∷ []) = (0, a)
last_two (a ∷ b ∷ []) = (a, b)
last_two (a ∷ b ∷ c ∷ r) = last_two (b ∷ c ∷ r)

-- `(last - prev) / 1000 <= 10`.
unfoldable pub within_ten_seconds : List ℕ → Bool
unfolding last_two
within_ten_seconds times = let (prev, last) = last_two times in leb (last - prev) (10 * 1000)

-- `t >= now - 60 * 1000`.
unfoldable pub recent_count : ℕ → List ℕ → ℕ
recent_count now times = length (keep (λ t. leb now (t + 60 * 1000)) times)

unfoldable pub verdict_of : ℕ → Ticket → Verdict
unfolding within_ten_seconds recent_count
verdict_of now ticket =
    let times = sort ticket.used_list in
    if ltb (length ticket.used_list) 2
    then no_abuse
    else if within_ten_seconds times
    then two_within_ten_seconds
    else if not (is_short_term ticket.ticket_type) && ltb 3 (recent_count now times)
    then more_than_three_in_a_minute
    else no_abuse

-- `_lockAndRotate`.
unfoldable pub lock_and_rotate : Ticket → Handler Ticket
lock_and_rotate ticket = update (record ticket { status = abused })

-- The instance that the caller holds is locked along with its row.
abbrev pub act_on : Verdict → Ticket → Handler (Verdict × Ticket)
act_on no_abuse ticket s = (ok (no_abuse, ticket), s)
act_on v ticket s = (lock_and_rotate ticket >>= λ locked. pure (v, locked)) s

unfoldable pub track_and_detect_abuse : Ticket → Handler (Verdict × Ticket)
unfolding lock_and_rotate
track_and_detect_abuse ticket s = act_on (verdict_of s.now ticket) ticket s

Verdict-cases : (v : Verdict) → (v ≡ no_abuse) ⊎ (v ≢ no_abuse)
Verdict-cases no_abuse = inl refl
Verdict-cases two_within_ten_seconds = inr (λ e. cc)
Verdict-cases more_than_three_in_a_minute = inr (λ e. cc)
