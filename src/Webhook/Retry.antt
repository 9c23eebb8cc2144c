-- ===== src/Webhook/Retry.antt =====
-- The retry of the webhooks that failed.
use metro_backend.Prelude.{
  ℕ, zero, suc, ◌≡◌, refl, ◌∙◌, Bool, leb, String, List, [], ◌∷◌, arith, Bool-cases, inl, inr,
  Option-cases, ok, err, Result, All, take, keep, continue_state,
}
use metro_backend.Sepay.{Payload}
use metro_backend.Webhook.{
  Hook, Hub, Failure, KeyData, Answer, generate_idempotency_key, is_processed, has_key, find_hook,
  save_hook, as_failed, as_duplicate,
}
use metro_backend.Webhook.Process.{
  process_new, mark_duplicate, process_webhook, or_failed, retry_each, retry_failed_webhooks,
  get_failed_webhooks, insert_late, sort_late, is_failed,
}
use metro_backend.Webhook.Once.{rows, rows-le, Keeps, save_hook-IsCalm}
use metro_backend.Webhook.Deliveries.{insert_hook-cases, process_webhook-IsStep}

save_hook-topic :
    (id : String) (f : ℕ → Hook → Hook) (s : Hub)
    → ((now : ℕ) (h : Hook) → Keeps (f now) h)
    → (save_hook id f s).1.topic ≡ s.topic
save_hook-topic id f s keeps = (save_hook-IsCalm id f s keeps).topic

-- The body has an id that a row is stored under.
abbrev pub IsStored : Hub → Hook → Type 0
IsStored s h = rows h.raw_payload.id s.hooks ≡ 1

module _ (hash : KeyData → String) (raw : Payload) (s : Hub)
    (stored : rows raw.id s.hooks ≡ 1) where
  process_new-topic : (key : String) → (process_new raw key s).1.topic ≡ s.topic
  unfolding process_new rows
  process_new-topic key = elim (insert_hook-cases raw key s) [
    | inl (e, refused) ↦ rw refused refl
    | inr (new, _) ↦ absurd (
        let none_stored : rows raw.id s.hooks ≡ 0 = rw new refl in
        omega (arith, stored, none_stored))
  ]

  mark_duplicate-topic : (key : String) → (mark_duplicate key s).1.topic ≡ s.topic
  unfolding mark_duplicate
  mark_duplicate-topic key = elim (Option-cases (find_hook (has_key key) s.hooks)) [
    | inl none_such ↦ rw none_such refl
    | inr (h, known) ↦ rw known (
        continue_state (λ t. t.topic ≡ s.topic) (save_hook h.webhook_id as_duplicate s) _
          (save_hook-topic h.webhook_id as_duplicate s (λ now h. (refl, refl)))
          (λ a e. save_hook-topic h.webhook_id as_duplicate s (λ now h. (refl, refl))))
  ]

  or_failed-topic :
      (r : Result Failure Answer × Hub) → r.1.topic ≡ s.topic → (or_failed raw r).1.topic ≡ s.topic
  or_failed-topic (ok answer, t) e = e
  or_failed-topic (err x, t) e = save_hook-topic raw.id as_failed t (λ now h. (refl, refl)) ∙ e

  process_webhook-topic :
      (timestamp : String) → (process_webhook hash raw timestamp s).1.topic ≡ s.topic
  unfolding process_webhook
  process_webhook-topic timestamp =
      let key = generate_idempotency_key hash raw timestamp s.now in
      elim (Bool-cases (is_processed key s)) [
        | inl seen ↦ rw seen (or_failed-topic (mark_duplicate key s) (mark_duplicate-topic key))
        | inr new ↦ rw new (or_failed-topic (process_new raw key s) (process_new-topic key))
      ]

-- Rows stay stored.
step-IsStored :
    (hash : KeyData → String) (raw : Payload) (s : Hub) (hs : List Hook)
    → All (IsStored s) hs
    → All (IsStored (process_webhook hash raw "" s).1) hs
step-IsStored hash raw s [] h = tt
step-IsStored hash raw s (g ∷ hs) h =
    let step = process_webhook-IsStep g.raw_payload.id raw s hash "" in
    (
      omega (arith, h.0, step.up, rows-le g.raw_payload.id (process_webhook hash raw "" s).1.hooks),
      step-IsStored hash raw s hs h.1,
    )

retry_each-topic :
    (hash : KeyData → String) (hs : List Hook) (s : Hub)
    → All (IsStored s) hs
    → (retry_each hash hs s).topic ≡ s.topic
unfolding retry_each
retry_each-topic hash [] s h = refl
retry_each-topic hash (g ∷ hs) s h =
    retry_each-topic hash hs (process_webhook hash g.raw_payload "" s).1
      (step-IsStored hash g.raw_payload s hs h.1)
    ∙ process_webhook-topic hash g.raw_payload s h.0 ""

module _ {A : Type 0} (P : A → Type 0) where
  keep-All : (p : A → Bool) (xs : List A) → All P xs → All P (keep p xs)
  keep-All p [] h = tt
  keep-All p (x ∷ xs) h = elim (Bool-cases (p x)) [
    | inl yes_x ↦ rw yes_x (h.0, keep-All p xs h.1)
    | inr no_x ↦ rw no_x (keep-All p xs h.1)
  ]

  take-All : (n : ℕ) (xs : List A) → All P xs → All P (take n xs)
  take-All zero xs h = tt
  take-All (suc n) [] h = tt
  take-All (suc n) (x ∷ xs) h = (h.0, take-All n xs h.1)

module _ (P : Hook → Type 0) where
  insert_late-All : (h : Hook) (hs : List Hook) → P h → All P hs → All P (insert_late h hs)
  insert_late-All h [] p ps = (p, tt)
  insert_late-All h (g ∷ gs) p ps =
      elim (Bool-cases (leb g.last_processed_at h.last_processed_at)) [
        | inl later ↦ rw later (p, ps)
        | inr earlier ↦ rw earlier (ps.0, insert_late-All h gs p ps.1)
      ]

  sort_late-All : (hs : List Hook) → All P hs → All P (sort_late hs)
  sort_late-All [] h = tt
  sort_late-All (g ∷ hs) h = insert_late-All g (sort_late hs) h.0 (sort_late-All hs h.1)

pub get_failed_webhooks-All :
    (P : Hook → Type 0) (limit : ℕ) (s : Hub) → All P s.hooks → All P (get_failed_webhooks limit s)
unfolding get_failed_webhooks
get_failed_webhooks-All P limit s h =
    take-All P limit (sort_late (keep is_failed s.hooks))
      (sort_late-All P (keep is_failed s.hooks) (keep-All P is_failed s.hooks h))

-- The retry never publishes: each row that failed is stored under its webhook id, so that the
-- webhook is refused as a duplicate or as a second row of the id, whatever Redis, MongoDB and the
-- broker do. The rows are those of bodies with the ids that they are stored under.
pub retry_failed_webhooks-topic :
    (hash : KeyData → String) (limit : ℕ) (s : Hub)
    → All (IsStored s) s.hooks
    → (retry_failed_webhooks hash limit s).topic ≡ s.topic
unfolding retry_failed_webhooks
retry_failed_webhooks-topic hash limit s stored =
    retry_each-topic hash (get_failed_webhooks limit s) s
      (get_failed_webhooks-All (IsStored s) limit s stored)
