-- ===== src/Webhook/Deliveries.antt =====
-- Webhooks in any order, while MongoDB, Redis and the broker come and go.
use metro_backend.Prelude.{
  ℕ, ◌+◌, ◌-◌, ◌≤◌, ◌≡◌, refl, Bool, ◌==◌, String, none, List, [], ◌∷◌, ◌++◌, arith, Bool-cases,
  inl, inr, Option-cases, ok, err, Result, ◌⊎◌, continue_state,
}
use metro_backend.Sepay.{Payload}
use metro_backend.Webhook.{
  Hook, Hub, Failure, db_error, invalid_hook, duplicate_key, Answer, done, already, not_done, Key,
  KeyData, generate_idempotency_key, is_processed, write, has_webhook_id, has_key, find_hook,
  save_hook, as_failed, as_duplicate, fits_schema, new_hook,
}
use metro_backend.Webhook.Process.{
  insert_hook, process_new, mark_duplicate, process_webhook, or_failed, handle_webhook,
  retry_failed_webhooks, retry_each, get_failed_webhooks, is_accepted, status_code,
}
use metro_backend.Webhook.Once.{
  sent, rows, rows-le, rows-append, IsRest, save_hook-IsRest, publish_new-IsRest,
}

-- Messages of an id are added only with a row of the id, and no row is lost.
pub record IsStep (k : String) (s after : Hub) : Type 0 where
  pub up : rows k s.hooks ≤ rows k after.hooks
  pub grow : sent k s.topic ≤ sent k after.topic
  pub fair : sent k after.topic + rows k s.hooks ≤ sent k s.topic + rows k after.hooks

IsStep-refl : (k : String) (s : Hub) → IsStep k s s
IsStep-refl k s = record { up = omega arith; grow = omega arith; fair = omega arith }

IsStep-trans : (k : String) (s t u : Hub) → IsStep k s t → IsStep k t u → IsStep k s u
IsStep-trans k s t u a b = record {
  up = omega (arith, a.up, b.up);
  grow = omega (arith, a.grow, b.grow);
  fair = omega (arith, a.fair, b.fair);
}

rest-IsStep : (k : String) (s t u : Hub) → IsStep k s t → IsRest k 0 t u → IsStep k s u
rest-IsStep k s t u a b = record {
  up = omega (arith, a.up, b.stay);
  grow = omega (arith, a.grow, b.grow);
  fair = omega (arith, a.fair, b.stay, b.most);
}

-- A row is inserted under a new id, or nothing changes but the writes that are left.
pub insert_hook-cases :
    (raw : Payload) (key : String) (s : Hub)
    → ((e : Failure) × (insert_hook raw key s ≡ (err e, s)))
      ⊎ ((find_hook (has_webhook_id raw.id) s.hooks ≡ none)
          × (insert_hook raw key s ≡ (
            ok tt,
            record s { writes_left = s.writes_left - 1; hooks = s.hooks ++ new_hook raw key ∷ [] },
          )))
unfolding insert_hook write
insert_hook-cases raw key s = elim (Bool-cases (fits_schema s.casts raw)) [
  | inr unfit ↦ inl (invalid_hook, rw unfit refl)
  | inl fit ↦ elim (Option-cases (find_hook (has_webhook_id raw.id) s.hooks)) [
    | inr (h, known) ↦ inl (duplicate_key, rw (fit, known) refl)
    | inl new ↦ elim (Option-cases (find_hook (has_key key) s.hooks)) [
      | inr (h, known) ↦ inl (duplicate_key, rw (fit, new, known) refl)
      | inl free ↦ elim (Bool-cases (s.writes_left == 0)) [
        | inl gone ↦ inl (db_error, rw (fit, new, free, gone) refl)
        | inr left ↦ inr (new, rw (fit, new, free, left) refl)
      ]
    ]
  ]
]

module _ (k : String) (raw : Payload) (s : Hub) where
  process_new-IsStep : (key : String) → IsStep k s (process_new raw key s).1
  unfolding process_new
  process_new-IsStep key = elim (insert_hook-cases raw key s) [
    | inl (e, refused) ↦ rw refused (IsStep-refl k s)
    | inr (new, stored) ↦
        let t = record s {
          writes_left = s.writes_left - 1;
          hooks = s.hooks ++ new_hook raw key ∷ [];
        } in
        let rest = publish_new-IsRest k raw t key in
        let more = rows-append k (new_hook raw key) s.hooks new in
        rw stored (record {
          up = omega (arith, more, rest.stay);
          grow = rest.grow;
          fair = omega (arith, more, rest.stay, rest.most);
        })
  ]

  mark_duplicate-IsStep : (key : String) → IsStep k s (mark_duplicate key s).1
  unfolding mark_duplicate
  mark_duplicate-IsStep key = elim (Option-cases (find_hook (has_key key) s.hooks)) [
    | inl none_such ↦ rw none_such (IsStep-refl k s)
    | inr (h, stored) ↦
        let t = (save_hook h.webhook_id as_duplicate s).1 in
        let step =
          rest-IsStep k s s t (IsStep-refl k s)
            (save_hook-IsRest k h.webhook_id as_duplicate s (λ now h. (refl, refl))) in
        rw stored
          (continue_state (IsStep k s) (save_hook h.webhook_id as_duplicate s) _ step (λ a e. step))
  ]

  or_failed-IsStep :
      (r : Result Failure Answer × Hub) → IsStep k s r.1 → IsStep k s (or_failed raw r).1
  or_failed-IsStep (ok answer, t) step = step
  or_failed-IsStep (err e, t) step =
      rest-IsStep k s t (save_hook raw.id as_failed t).1 step
        (save_hook-IsRest k raw.id as_failed t (λ now h. (refl, refl)))

  pub process_webhook-IsStep :
      (hash : KeyData → String) (timestamp : String)
      → IsStep k s (process_webhook hash raw timestamp s).1
  unfolding process_webhook
  process_webhook-IsStep hash timestamp =
      let key = generate_idempotency_key hash raw timestamp s.now in
      elim (Bool-cases (is_processed key s)) [
        | inl seen ↦ rw seen (or_failed-IsStep (mark_duplicate key s) (mark_duplicate-IsStep key))
        | inr new ↦ rw new (or_failed-IsStep (process_new raw key s) (process_new-IsStep key))
      ]

pub status_code-state : (r : Answer × Hub) → (status_code r).1 ≡ r.1
status_code-state (done events, s) = refl
status_code-state (already, s) = refl
status_code-state (not_done, s) = refl

-- What happens: a webhook arrives, a retry is asked for, or what stands around the service
-- changes: Redis, which may forget keys, the broker, the writes that MongoDB still takes and the
-- clock.
pub data Arrival : Type 0 where
  delivered : Payload → String → Arrival
  retried : ℕ → Arrival
  around : Bool → List Key → Bool → ℕ → ℕ → Arrival

unfoldable pub serve : (KeyData → String) → Arrival → Hub → Hub
serve hash (delivered raw timestamp) s = (handle_webhook hash raw timestamp s).1
serve hash (retried limit) s = retry_failed_webhooks hash limit s
serve hash (around redis keys broker writes now) s = record s {
  redis_up = redis;
  keys = keys;
  broker_up = broker;
  writes_left = writes;
  now = now;
}

unfoldable pub serve_all : (KeyData → String) → List Arrival → Hub → Hub
serve_all hash [] s = s
serve_all hash (a ∷ arrivals) s = serve_all hash arrivals (serve hash a s)

module _ (hash : KeyData → String) (k : String) where
  retry_each-IsStep : (hs : List Hook) (s : Hub) → IsStep k s (retry_each hash hs s)
  unfolding retry_each
  retry_each-IsStep [] s = IsStep-refl k s
  retry_each-IsStep (h ∷ hs) s =
      let t = (process_webhook hash h.raw_payload "" s).1 in
      IsStep-trans k s t (retry_each hash hs t) (process_webhook-IsStep k h.raw_payload s hash "")
        (retry_each-IsStep hs t)

  handle_webhook-IsStep :
      (raw : Payload) (timestamp : String) (s : Hub)
      → IsStep k s (handle_webhook hash raw timestamp s).1
  unfolding handle_webhook
  handle_webhook-IsStep raw timestamp s = elim (Bool-cases (is_accepted raw)) [
    | inl right ↦
        rw (right, status_code-state (process_webhook hash raw timestamp s))
          (process_webhook-IsStep k raw s hash timestamp)
    | inr wrong ↦ rw wrong (IsStep-refl k s)
  ]

  serve-IsStep : (a : Arrival) (s : Hub) → IsStep k s (serve hash a s)
  unfolding serve retry_failed_webhooks
  serve-IsStep (delivered raw timestamp) s = handle_webhook-IsStep raw timestamp s
  serve-IsStep (retried limit) s = retry_each-IsStep (get_failed_webhooks limit s) s
  serve-IsStep (around redis keys broker writes now) s = record {
    up = omega arith;
    grow = omega arith;
    fair = omega arith;
  }

  serve_all-IsStep : (arrivals : List Arrival) (s : Hub) → IsStep k s (serve_all hash arrivals s)
  unfolding serve_all
  serve_all-IsStep [] s = IsStep-refl k s
  serve_all-IsStep (a ∷ arrivals) s =
      IsStep-trans k s (serve hash a s) (serve_all hash arrivals (serve hash a s))
        (serve-IsStep a s) (serve_all-IsStep arrivals (serve hash a s))

  -- Once a row of a webhook id is stored, nothing more of that id reaches payment-service, by
  -- deliveries or retries, whether its message was published then or not.
  pub serve_all-silent :
      (arrivals : List Arrival) (s : Hub)
      → rows k s.hooks ≡ 1
      → sent k (serve_all hash arrivals s).topic ≡ sent k s.topic
  serve_all-silent arrivals s stored =
      let step = serve_all-IsStep arrivals s in
      omega (arith, step.fair, step.grow, rows-le k (serve_all hash arrivals s).hooks)
