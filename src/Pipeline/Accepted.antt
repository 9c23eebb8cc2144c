-- ===== src/Pipeline/Accepted.antt =====
-- The topic of the webhook service holds bodies that the endpoint accepted.
use metro_backend.Prelude.{
  ◌-◌, refl, sym, subst, String, List, [], ◌∷◌, ◌++◌, Bool-cases, inl, inr, Option-cases, ok, err,
  Result, All, continue_state,
}
use metro_backend.Sepay.{Payload}
use metro_backend.Webhook.{
  Hook, Hub, Failure, KeyData, Answer, generate_idempotency_key, is_processed, has_key, find_hook,
  save_hook, as_failed, as_duplicate, new_hook,
}
use metro_backend.Webhook.Process.{
  process_new, publish_new, mark_duplicate, process_webhook, or_failed, handle_webhook, is_accepted,
  retry_each, retry_failed_webhooks, get_failed_webhooks,
}
use metro_backend.Webhook.Once.{
  IsCalm, IsAccepted, AllAccepted, save_hook-IsCalm, publish_new_state,
}
use metro_backend.Webhook.Deliveries.{
  insert_hook-cases, status_code-state, Arrival, delivered, retried, around, serve,
}
use metro_backend.Webhook.Retry.{get_failed_webhooks-All}
use metro_backend.Pipeline.{In}

append-All :
    {A : Type 0} (P : A → Type 0) (xs : List A) (x : A) → All P xs → P x → All P (xs ++ x ∷ [])
append-All P [] x h p = (p, tt)
append-All P (y ∷ xs) x h p = (h.0, append-All P xs x h.1 p)

In-append : {A : Type 0} (x y : A) (xs : List A) → In x xs → In x (xs ++ y ∷ [])
In-append x y [] h = elim h [ ]
In-append x y (z ∷ xs) (inl e) = inl e
In-append x y (z ∷ xs) (inr h) = inr (In-append x y xs h)

-- The bodies that are stored and sent were accepted, and nothing leaves the topic.
pub record IsFed (s t : Hub) : Type 0 where
  pub sent_out : All IsAccepted t.topic
  pub bodies : AllAccepted t.hooks
  pub kept : (x : Payload) → In x s.topic → In x t.topic

calm-IsFed : (s t u : Hub) → IsCalm t u → IsFed s t → IsFed s u
calm-IsFed s t u calm fed = record {
  sent_out = rw calm.topic fed.sent_out;
  bodies = calm.bodies fed.bodies;
  kept = λ x h. subst (λ l. In x l) (sym calm.topic) (fed.kept x h);
}

module _ (raw : Payload) (accepted : IsAccepted raw) (s : Hub) where
  publish_new-IsFed : (key : String) (t : Hub) → IsFed s t → IsFed s (publish_new raw key t).1
  publish_new-IsFed key t fed =
      publish_new_state raw (IsFed s) (IsFed s) (calm-IsFed s) (calm-IsFed s) (λ u f. f)
        (λ u f. record {
          sent_out = append-All IsAccepted u.topic raw f.sent_out accepted;
          bodies = f.bodies;
          kept = λ x h. In-append x raw u.topic (f.kept x h);
        })
        key t fed

  process_new-IsFed : (key : String) (t : Hub) → IsFed s t → IsFed s (process_new raw key t).1
  unfolding process_new
  process_new-IsFed key t fed = elim (insert_hook-cases raw key t) [
    | inl (e, refused) ↦ rw refused fed
    | inr (new, stored) ↦ rw stored (
        publish_new-IsFed key
          (record t { writes_left = t.writes_left - 1; hooks = t.hooks ++ new_hook raw key ∷ [] })
          (record {
            sent_out = fed.sent_out;
            bodies =
                append-All (λ h. IsAccepted h.raw_payload) t.hooks (new_hook raw key) fed.bodies
                  accepted;
            kept = fed.kept;
          }))
  ]

  mark_duplicate-IsFed : (key : String) (t : Hub) → IsFed s t → IsFed s (mark_duplicate key t).1
  unfolding mark_duplicate
  mark_duplicate-IsFed key t fed = elim (Option-cases (find_hook (has_key key) t.hooks)) [
    | inl none_such ↦ rw none_such fed
    | inr (h, known) ↦
        let after = (save_hook h.webhook_id as_duplicate t).1 in
        let fed_after =
          calm-IsFed s t after
            (save_hook-IsCalm h.webhook_id as_duplicate t (λ now g. (refl, refl))) fed in
        rw known (
          continue_state (IsFed s) (save_hook h.webhook_id as_duplicate t) _ fed_after
            (λ a e. fed_after))
  ]

  or_failed-IsFed : (r : Result Failure Answer × Hub) → IsFed s r.1 → IsFed s (or_failed raw r).1
  or_failed-IsFed (ok answer, t) fed = fed
  or_failed-IsFed (err x, t) fed =
      calm-IsFed s t (save_hook raw.id as_failed t).1
        (save_hook-IsCalm raw.id as_failed t (λ now g. (refl, refl))) fed

  process_webhook-IsFed :
      (hash : KeyData → String) (timestamp : String) (t : Hub)
      → IsFed s t
      → IsFed s (process_webhook hash raw timestamp t).1
  unfolding process_webhook
  process_webhook-IsFed hash timestamp t fed =
      let key = generate_idempotency_key hash raw timestamp t.now in
      elim (Bool-cases (is_processed key t)) [
        | inl seen ↦
            rw seen (or_failed-IsFed (mark_duplicate key t) (mark_duplicate-IsFed key t fed))
        | inr new ↦ rw new (or_failed-IsFed (process_new raw key t) (process_new-IsFed key t fed))
      ]

module _ (hash : KeyData → String) (s : Hub) where
  retry_each-IsFed :
      (hs : List Hook) (t : Hub) → AllAccepted hs → IsFed s t → IsFed s (retry_each hash hs t)
  unfolding retry_each
  retry_each-IsFed [] t a fed = fed
  retry_each-IsFed (h ∷ hs) t a fed =
      retry_each-IsFed hs (process_webhook hash h.raw_payload "" t).1 a.1
        (process_webhook-IsFed h.raw_payload a.0 s hash "" t fed)

  handle_webhook-IsFed :
      (raw : Payload) (timestamp : String) (t : Hub)
      → IsFed s t
      → IsFed s (handle_webhook hash raw timestamp t).1
  unfolding handle_webhook
  handle_webhook-IsFed raw timestamp t fed = elim (Bool-cases (is_accepted raw)) [
    | inl right ↦
        rw (right, status_code-state (process_webhook hash raw timestamp t))
          (process_webhook-IsFed raw right s hash timestamp t fed)
    | inr wrong ↦ rw wrong fed
  ]

  pub serve-IsFed : (a : Arrival) (t : Hub) → IsFed s t → IsFed s (serve hash a t)
  unfolding serve retry_failed_webhooks
  serve-IsFed (delivered raw timestamp) t fed = handle_webhook-IsFed raw timestamp t fed
  serve-IsFed (retried limit) t fed =
      retry_each-IsFed (get_failed_webhooks limit t) t
        (get_failed_webhooks-All (λ h. IsAccepted h.raw_payload) limit t fed.bodies) fed
  serve-IsFed (around redis keys broker writes now) t fed = record {
    sent_out = fed.sent_out;
    bodies = fed.bodies;
    kept = fed.kept;
  }
