-- ===== src/Examples/Accounts.antt =====
-- Two accounts: wrong passwords, a lock, a reset and a new account.
use metro_backend.Prelude.{
  ◌+◌, ◌*◌, ◌<◌, ◌≤◌, ◌≡◌, refl, Bool, true, false, String, str_eq, none, some, List, [], ◌∷◌, Text,
  text_eq, arith, if◌then◌else◌, Result, ok, err, is_ok,
}
use metro_backend.Account.{User, Accounts, Refusal, locked, find_user, has_email, max_attempts}
use metro_backend.Account.Requests.{login, reset_password, signup, create_user}
use metro_backend.Prelude.Trim.{trim}
use metro_backend.Account.Attempts.{Try, wrong_tries, total_wait, wrong_tries-le}
use metro_backend.Account.Sessions.{logs_in, does_task, waits, forgets, Event, serve_all, time_of}
use metro_backend.Account.Locked.{IsShut, serve_all-locked}
use metro_backend.Account.Recovery.{reset_password-login, waited, CanReset}
use metro_backend.Account.Signup.{signed_up}

abbrev secret : Text
secret = b's' ∷ b'e' ∷ b'c' ∷ b'r' ∷ b'e' ∷ b't' ∷ []

abbrev guess : Text
guess = b'x' ∷ []

-- A hash that tells the secret from all else.
abbrev digest : Text → String
digest t = if text_eq t secret then "right" else "wrong"

abbrev fits : Text → String → Bool
fits t d = str_eq (digest t) d

abbrev account : String → String → User
account id email = record {
  id = id;
  email = email;
  username = id;
  password = "right";
  is_verified = true;
  account_locked = false;
  roles = "passenger" ∷ [];
  login_attempts = 0;
  lock_until = none;
  last_login_at = none;
}

abbrev ada : User
ada = account "u1" "ada@metro"

abbrev barred : User
barred = record ada { login_attempts = 5; lock_until = some 7_201_000 }

abbrev with_users : List User → Accounts
with_users us = record {
  now = 1_000;
  redis_up = true;
  users = us;
  reset_tokens = λ id. none;
  tasks = [];
  mailed = [];
}

abbrev two : Accounts
two = with_users (account "u2" "bob@metro" ∷ ada ∷ [])

abbrev try : Try
try = record { wait = 1_000; password = guess }

abbrev six_tries : List Try
six_tries = try ∷ try ∷ try ∷ try ∷ try ∷ try ∷ []

ada-found : find_user (has_email "ada@metro") two.users ≡ some ada
unfolding find_user
ada-found = refl

guess-wrong : fits (trim guess) "right" ≡ false
unfolding trim
guess-wrong = refl

six_tries-wait : total_wait six_tries < 2 * 60 * 60 * 1000
unfolding total_wait
six_tries-wait = omega arith

wrong_tries-le_example : wrong_tries false digest fits "ada@metro" six_tries two ≤ max_attempts
wrong_tries-le_example =
    wrong_tries-le false digest fits "ada@metro" six_tries ada two refl ada-found refl refl
      six_tries-wait
      (guess-wrong, (guess-wrong, (guess-wrong, (guess-wrong, (guess-wrong, (guess-wrong, tt))))))

abbrev events : List Event
events =
    logs_in "bob@metro" secret
    ∷ logs_in "ada@metro" secret
    ∷ waits 500
    ∷ does_task true
    ∷ forgets "ada@metro" "t"
    ∷ []

abbrev shut_out : Accounts
shut_out = with_users (account "u2" "bob@metro" ∷ barred ∷ [])

shut_out-IsShut : IsShut barred 7_201_000 shut_out
unfolding find_user
shut_out-IsShut = record {
  row = refl;
  own = (λ h. ground (arith, h), (λ h. refl, tt));
  spared = tt;
  lock = refl;
}

events-time : 1_000 + time_of events < 7_201_000
unfolding time_of
events-time = omega arith

serve_all-locked_example :
    (find_user (has_email "ada@metro") (serve_all false digest fits (λ t. t) events shut_out).users
      ≡ some barred)
    × (login false digest fits "ada@metro" secret
          (serve_all false digest fits (λ t. t) events shut_out)
        ≡ (err locked, serve_all false digest fits (λ t. t) events shut_out))
serve_all-locked_example =
    serve_all-locked false digest fits (λ t. t) barred 7_201_000 events shut_out secret
      shut_out-IsShut events-time

can_reset : CanReset false digest fits (λ t. t) "ada@metro" "t" secret ada 300_000 two
unfolding find_user trim
can_reset = record {
  idle = refl;
  up = refl;
  row = refl;
  by_id = refl;
  given = refl;
  known = refl;
  digest = refl;
  long = refl;
  early = omega arith;
}

secret-fits : fits (trim secret) (digest (trim secret)) ≡ true
unfolding trim
secret-fits = refl

abbrev reset_once : Result Refusal Bool × Accounts
reset_once =
    reset_password false digest fits (λ t. t) "t" "u1" secret
      (waited false digest fits (λ t. t) "ada@metro" "t" secret ada 300_000 two)

reset_password-login_example :
    (reset_once.0 ≡ ok true)
    × ((is_ok (login false digest fits "ada@metro" secret reset_once.1).0 ≡ true)
        × (is_ok (reset_password false digest fits (λ t. t) "t" "u1" guess reset_once.1).0 ≡ false))
reset_password-login_example =
    reset_password-login false digest fits (λ t. t) "ada@metro" "t" secret ada 300_000 two can_reset
      refl secret-fits "t" guess

-- The secret with a space before it.
abbrev spaced : Text
spaced = b' ' ∷ secret

abbrev eve : Result Refusal User × Accounts
eve = signed_up false digest fits (λ e n. true) "u3" "eve@metro" "eve" spaced none two

eve-is_ok : is_ok eve.0 ≡ true
unfolding signup create_user find_user
eve-is_ok = refl

-- The new account does not log in with its own password.
eve-refused : fits (trim spaced) (digest spaced) ≡ false
unfolding trim
eve-refused = refl
