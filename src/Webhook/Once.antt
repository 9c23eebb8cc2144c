-- ===== src/Webhook/Once.antt =====
-- How often the body of a webhook reaches payment-service.
use metro_backend.Prelude.{
  ℕ, ◌+◌, ◌≤◌, ◌≡◌, refl, sym, subst, ◌∙◌, true, false, ◌==◌, String, str_eq, eq_iff, none, List,
  [], ◌∷◌, ◌++◌, arith, if◌then◌else◌, Bool-cases, inl, inr, ok, err, Result, All, continue_state,
  ◌>>◌, pure, ◌*◌,
}
use metro_backend.Sepay.{Payload, is_some}
use metro_backend.Webhook.{
  Hook, Hub, Handler, Failure, publish_error, mark_as_processed, write, has_webhook_id, find_hook,
  update_hooks, save_hook, as_processing, as_processed, with_event,
}
use metro_backend.Webhook.Process.{publish, publish_webhook_event, is_accepted, publish_new, caught}

-- The messages on the topic with an id, and the rows (none or one) that an id finds.
unfoldable pub sent : String → List Payload → ℕ
sent id [] = 0
sent id (p ∷ ps) = (if str_eq p.id id then 1 else 0) + sent id ps

sent-append :
    (id : String) (p : Payload) (ps : List Payload)
    → sent id (ps ++ p ∷ []) ≡ sent id ps + (if str_eq p.id id then 1 else 0)
unfolding sent
sent-append id p [] = omega arith
sent-append id p (q ∷ ps) = omega (arith, sent-append id p ps)

unfoldable pub rows : String → List Hook → ℕ
rows id hs = if is_some (find_hook (has_webhook_id id) hs) then 1 else 0

pub rows-le : (id : String) (hs : List Hook) → rows id hs ≤ 1
unfolding rows
rows-le id hs = ground arith

-- A write of a row leaves its id and its body.
abbrev pub Keeps : (Hook → Hook) → Hook → Type 0
Keeps f h = ((f h).webhook_id ≡ h.webhook_id) × ((f h).raw_payload ≡ h.raw_payload)

abbrev pub IsAccepted : Payload → Type 0
IsAccepted raw = is_accepted raw ≡ true

abbrev pub AllAccepted : List Hook → Type 0
AllAccepted = All (λ h. IsAccepted h.raw_payload)

AllAccepted-update :
    (id : String) (f : Hook → Hook) (hs : List Hook)
    → ((h : Hook) → Keeps f h)
    → AllAccepted hs
    → AllAccepted (update_hooks id f hs)
unfolding update_hooks
AllAccepted-update id f [] keeps a = tt
AllAccepted-update id f (h ∷ hs) keeps a = elim (Bool-cases (has_webhook_id id h)) [
  | inl this ↦
      rw this (subst IsAccepted (sym (keeps h).1) a.0, AllAccepted-update id f hs keeps a.1)
  | inr other ↦ rw other (a.0, AllAccepted-update id f hs keeps a.1)
]

rows-update :
    (k id : String) (f : Hook → Hook) (hs : List Hook)
    → ((h : Hook) → Keeps f h)
    → rows k (update_hooks id f hs) ≡ rows k hs
unfolding rows update_hooks find_hook
rows-update k id f [] keeps = refl
rows-update k id f (h ∷ hs) keeps = ground (
  arith,
  (keeps h).0,
  rows-update k id f hs keeps,
  eq_iff h.webhook_id k,
  eq_iff (f h).webhook_id k,
)

pub rows-append :
    (k : String) (h : Hook) (hs : List Hook)
    → find_hook (has_webhook_id h.webhook_id) hs ≡ none
    → rows k (hs ++ h ∷ []) ≡ rows k hs + (if str_eq h.webhook_id k then 1 else 0)
unfolding rows find_hook
rows-append k h [] free = ground arith
rows-append k h (g ∷ hs) free =
    ground (arith, rows-append k h hs, eq_iff h.webhook_id k, eq_iff g.webhook_id h.webhook_id)

-- The topic and the ids of the rows stay.
pub record IsCalm (t after : Hub) : Type 0 where
  pub topic : after.topic ≡ t.topic
  pub ids : (k : String) → rows k after.hooks ≡ rows k t.hooks
  pub bodies : AllAccepted t.hooks → AllAccepted after.hooks

pub save_hook-IsCalm :
    (id : String) (f : ℕ → Hook → Hook) (t : Hub)
    → ((now : ℕ) (h : Hook) → Keeps (f now) h)
    → IsCalm t (save_hook id f t).1
unfolding save_hook write
save_hook-IsCalm id f t keeps = elim (Bool-cases (t.writes_left == 0)) [
  | inl gone ↦ rw gone (record { topic = refl; ids = λ k. refl; bodies = λ a. a })
  | inr left ↦ rw left (record {
    topic = refl;
    ids = λ k. rows-update k id (f t.now) t.hooks (keeps t.now);
    bodies = AllAccepted-update id (f t.now) t.hooks (keeps t.now);
  })
]

mark_as_processed-IsCalm :
    (key : String) (ttl : ℕ) (t : Hub) → IsCalm t (mark_as_processed key ttl t)
unfolding mark_as_processed
mark_as_processed-IsCalm key ttl t = elim (Bool-cases t.redis_up) [
  | inl up ↦ rw up (record { topic = refl; ids = λ k. refl; bodies = λ a. a })
  | inr down ↦ rw down (record { topic = refl; ids = λ k. refl; bodies = λ a. a })
]

caught_state :
    (P : Hub → Type 0) (r : Result Failure (Unit {0}) × Hub) (handler : Handler ℕ)
    → P r.1
    → ((t : Hub) → P t → P (handler t).1)
    → P (caught r handler).1
caught_state P (ok tt, t) handler h k = h
caught_state P (err e, t) handler h k = k t h

-- What holds of the state when the row is stored, and what the one publish makes of it.
module _ (raw : Payload) (P Q : Hub → Type 0) (calm_P : (t u : Hub) → IsCalm t u → P t → P u)
    (calm_Q : (t u : Hub) → IsCalm t u → Q t → Q u) (weaker : (t : Hub) → P t → Q t)
    (told : (t : Hub) → P t → Q (record t { topic = t.topic ++ raw ∷ [] })) where
  saved :
      (f : ℕ → Hook → Hook) (t : Hub)
      → ((now : ℕ) (h : Hook) → Keeps (f now) h)
      → Q t
      → Q (save_hook raw.id f t).1
  saved f t keeps q = calm_Q t (save_hook raw.id f t).1 (save_hook-IsCalm raw.id f t keeps) q

  publish_state : (t : Hub) → P t → Q (publish raw t).1
  unfolding publish
  publish_state t p = elim (Bool-cases t.broker_up) [
    | inl up ↦
        let went : publish raw t ≡ (ok tt, record t { topic = t.topic ++ raw ∷ [] }) = rw up refl in
        subst (λ r. Q r.1) (sym went) (told t p)
    | inr down ↦
        let went : publish raw t ≡ (err publish_error, t) = rw down refl in
        subst (λ r. Q r.1) (sym went) (weaker t p)
  ]

  publish_webhook_event_state : (t : Hub) → P t → Q (publish_webhook_event raw t).1
  unfolding publish_webhook_event
  publish_webhook_event_state t p =
      let after = publish_state t p in
      let failed_save =
        λ (w : Hub) (q : Q w). saved (with_event false) w (λ now h. (refl, refl)) q in
      caught_state Q ((publish raw >> save_hook raw.id (with_event true)) t)
        (save_hook raw.id (with_event false) >> pure 0)
        (continue_state Q (publish raw t) (λ _. save_hook raw.id (with_event true)) after
          (λ a e. saved (with_event true) (publish raw t).1 (λ now h. (refl, refl)) after))
        (λ w q.
          continue_state Q (save_hook raw.id (with_event false) w) (λ _. pure 0) (failed_save w q)
            (λ a e. failed_save w q))

  pub publish_new_state : (key : String) (t : Hub) → P t → Q (publish_new raw key t).1
  unfolding publish_new
  publish_new_state key t p =
      let t1 = (save_hook raw.id as_processing t).1 in
      let first = calm_P t t1 (save_hook-IsCalm raw.id as_processing t (λ now h. (refl, refl))) p in
      let t2 = mark_as_processed key 3600 t1 in
      let marked = calm_P t1 t2 (mark_as_processed-IsCalm key 3600 t1) first in
      let sent_out = publish_webhook_event_state t2 marked in
      let t3 = (publish_webhook_event raw t2).1 in
      let t4 = (save_hook raw.id as_processed t3).1 in
      let last = saved as_processed t3 (λ now h. (refl, refl)) sent_out in
      continue_state Q (save_hook raw.id as_processing t) _ (weaker t1 first) (λ a e.
        continue_state Q (publish_webhook_event raw t2) _ sent_out (λ events f.
          continue_state Q (save_hook raw.id as_processed t3) _ last (λ b g.
            calm_Q t4 (mark_as_processed key (24 * 3600) t4)
              (mark_as_processed-IsCalm key (24 * 3600) t4) last)))

-- The rows stay, and at most `n` messages of the id are added.
pub record IsRest (k : String) (n : ℕ) (s after : Hub) : Type 0 where
  pub stay : rows k after.hooks ≡ rows k s.hooks
  pub grow : sent k s.topic ≤ sent k after.topic
  pub most : sent k after.topic ≤ sent k s.topic + n

same_IsRest : (k : String) (s : Hub) → IsRest k 0 s s
same_IsRest k s = record { stay = refl; grow = omega arith; most = omega arith }

calm-IsRest : (k : String) (n : ℕ) (s t u : Hub) → IsCalm t u → IsRest k n s t → IsRest k n s u
calm-IsRest k n s t u calm rest = record {
  stay = calm.ids k ∙ rest.stay;
  grow = rw calm.topic rest.grow;
  most = rw calm.topic rest.most;
}

pub save_hook-IsRest :
    (k id : String) (f : ℕ → Hook → Hook) (t : Hub)
    → ((now : ℕ) (h : Hook) → Keeps (f now) h)
    → IsRest k 0 t (save_hook id f t).1
save_hook-IsRest k id f t keeps =
    calm-IsRest k 0 t t (save_hook id f t).1 (save_hook-IsCalm id f t keeps) (same_IsRest k t)

abbrev pub of_id : Payload → String → ℕ
of_id raw k = if str_eq raw.id k then 1 else 0

pub publish_new-IsRest :
    (k : String) (raw : Payload) (s : Hub) (key : String)
    → IsRest k (of_id raw k) s (publish_new raw key s).1
publish_new-IsRest k raw s key =
    publish_new_state raw (IsRest k 0 s) (IsRest k (of_id raw k) s) (calm-IsRest k 0 s)
      (calm-IsRest k (of_id raw k) s)
      (λ t rest. record { stay = rest.stay; grow = rest.grow; most = omega (arith, rest.most) })
      (λ t rest. record {
        stay = rest.stay;
        grow = ground (arith, rest.grow, sent-append k raw t.topic);
        most = ground (arith, rest.most, sent-append k raw t.topic);
      })
      key s (same_IsRest k s)
