-- ===== src/Webhook/Fresh.antt =====
-- A webhook that is new, while MongoDB is up.
use metro_backend.Prelude.{
  ℕ, ◌-◌, ◌≤◌, ◌≡◌, refl, ap, sym, ◌∙◌, Bool, true, false, ◌==◌, String, eq_refl, none, List, [],
  ◌∷◌, ◌++◌, arith, Bool-cases, inl, inr, ok, err, ◌*◌, suc, Result, continue, subst, ◌>>◌, pure,
}
use metro_backend.Sepay.{Payload}
use metro_backend.Webhook.{
  Hook, Hub, Failure, Handler, KeyData, Answer, done, already, not_done, publish_error,
  generate_idempotency_key, is_processed, mark_as_processed, write, has_webhook_id, has_key,
  find_hook, save_hook, as_processing, as_processed, with_event, fits_schema, new_hook,
}
use metro_backend.Webhook.Process.{
  insert_hook, publish, publish_webhook_event, process_new, publish_new, process_webhook,
  handle_webhook, caught, or_failed, status_code, is_accepted,
}
use metro_backend.Webhook.Once.{sent, rows, rows-le, rows-append, publish_new-IsRest}
use metro_backend.Webhook.Deliveries.{Arrival, serve_all, serve_all-silent}

-- An accepted body that the schema of the row takes, which neither MongoDB nor Redis knows, and
-- MongoDB takes the four writes.
pub record IsFresh (hash : KeyData → String) (raw : Payload) (timestamp : String) (s : Hub)
    : Type 0 where
  pub accepted : is_accepted raw ≡ true
  pub fits : fits_schema s.casts raw ≡ true
  pub new : find_hook (has_webhook_id raw.id) s.hooks ≡ none
  pub key_free :
      find_hook (has_key (generate_idempotency_key hash raw timestamp s.now)) s.hooks ≡ none
  pub unseen : is_processed (generate_idempotency_key hash raw timestamp s.now) s ≡ false
  pub writes : 4 ≤ s.writes_left

-- The writes that MongoDB takes at least, the broker, and the topic.
record Runs (n : ℕ) (b : Bool) (topic : List Payload) (t : Hub) : Type 0 where
  left : n ≤ t.writes_left
  broker : t.broker_up ≡ b
  told : t.topic ≡ topic

continue-ok :
    {A B : Type 0} (r : Result Failure A × Hub) (f : A → Handler B) (a : A)
    → r.0 ≡ ok a
    → continue r f ≡ f a r.1
continue-ok (ok a', t) f a e = cc
continue-ok (err x, t) f a e = cc

module _ (n : ℕ) (b : Bool) (topic : List Payload) (t : Hub) where
  save_hook-Runs :
      (id : String) (f : ℕ → Hook → Hook)
      → Runs (suc n) b topic t
      → ((save_hook id f t).0 ≡ ok tt) × Runs n b topic (save_hook id f t).1
  unfolding save_hook write
  save_hook-Runs id f runs =
      let taken : (t.writes_left == 0) ≡ false = ground (arith, runs.left) in
      rw taken
        (refl, record { left = omega (arith, runs.left); broker = runs.broker; told = runs.told })

  mark_as_processed-Runs :
      (key : String) (ttl : ℕ) → Runs n b topic t → Runs n b topic (mark_as_processed key ttl t)
  unfolding mark_as_processed
  mark_as_processed-Runs key ttl runs = elim (Bool-cases t.redis_up) [
    | inl up ↦ rw up (record { left = runs.left; broker = runs.broker; told = runs.told })
    | inr down ↦ rw down (record { left = runs.left; broker = runs.broker; told = runs.told })
  ]

caught-ok :
    (r : Result Failure (Unit {0}) × Hub) (handler : Handler ℕ)
    → r.0 ≡ ok tt
    → caught r handler ≡ (ok 1, r.1)
caught-ok (ok tt, t) handler e = refl
caught-ok (err x, t) handler e = cc

-- An action that ends well, in a state that it reaches.
abbrev Ends : {A : Type 0} → Result Failure A × Hub → A → ℕ → Bool → List Payload → Type 0
Ends r a n b topic = (r.0 ≡ ok a) × Runs n b topic r.1

Ends-continue :
    {A B : Type 0} (r : Result Failure A × Hub) (f : A → Handler B) (a : A) (c : B) (n : ℕ)
    (b : Bool) (topic : List Payload)
    → r.0 ≡ ok a
    → Ends (f a r.1) c n b topic
    → Ends (continue r f) c n b topic
Ends-continue r f a c n b topic e h = rw (continue-ok r f a e) h

module _ (raw : Payload) (n : ℕ) (topic : List Payload) (t : Hub) where
  -- One write records the publish, whether it went well or not.
  publish_webhook_event-up :
      Runs (suc n) true topic t → Ends (publish_webhook_event raw t) 1 n true (topic ++ raw ∷ [])
  unfolding publish_webhook_event publish
  publish_webhook_event-up runs =
      let u = record t { topic = t.topic ++ raw ∷ [] } in
      let (saved, rest) =
        save_hook-Runs n true (topic ++ raw ∷ []) u raw.id (with_event true) (record {
          left = runs.left;
          broker = runs.broker;
          told = ap (λ l. l ++ raw ∷ []) runs.told;
        }) in
      let handler = save_hook raw.id (with_event false) >> pure 0 in
      let went : publish raw t ≡ (ok tt, u) = rw runs.broker refl in
      let whole : publish_webhook_event raw t ≡ (ok 1, (save_hook raw.id (with_event true) u).1) =
        ap (λ r. caught (continue r (λ _. save_hook raw.id (with_event true))) handler) went
        ∙ caught-ok (save_hook raw.id (with_event true) u) handler saved in
      subst (λ r. Ends r 1 n true (topic ++ raw ∷ [])) (sym whole) (refl, rest)

  publish_webhook_event-down :
      Runs (suc n) false topic t → Ends (publish_webhook_event raw t) 0 n false topic
  unfolding publish_webhook_event publish
  publish_webhook_event-down runs =
      let (saved, rest) = save_hook-Runs n false topic t raw.id (with_event false) runs in
      let handler = save_hook raw.id (with_event false) >> pure 0 in
      let went : publish raw t ≡ (err publish_error, t) = rw runs.broker refl in
      let whole : publish_webhook_event raw t ≡ handler t =
        ap (λ r. caught (continue r (λ _. save_hook raw.id (with_event true))) handler) went in
      subst (λ r. Ends r 0 n false topic) (sym whole)
        (Ends-continue (save_hook raw.id (with_event false) t) (λ _. pure 0) tt 0 n false topic
          saved (refl, rest))

-- The publish of a new row with three writes: what the broker decides is what is told.
publish_new-Ends :
    (raw : Payload) (key : String) (b : Bool) (topic told : List Payload) (events : ℕ) (t : Hub)
    → ((u : Hub) → Runs 2 b topic u → Ends (publish_webhook_event raw u) events 1 b told)
    → Runs 3 b topic t
    → Ends (publish_new raw key t) (done events) 0 b told
unfolding publish_new
publish_new-Ends raw key b topic told events t publishes runs =
    let (marked, r1) = save_hook-Runs 2 b topic t raw.id as_processing runs in
    let t1 = (save_hook raw.id as_processing t).1 in
    let t2 = mark_as_processed key 3600 t1 in
    let (sent_out, r3) = publishes t2 (mark_as_processed-Runs 2 b topic t1 key 3600 r1) in
    let t3 = (publish_webhook_event raw t2).1 in
    let (closed, r4) = save_hook-Runs 0 b told t3 raw.id as_processed r3 in
    let t4 = (save_hook raw.id as_processed t3).1 in
    Ends-continue (save_hook raw.id as_processing t) _ tt (done events) 0 b told marked (
      Ends-continue (publish_webhook_event raw t2) _ events (done events) 0 b told sent_out (
        Ends-continue (save_hook raw.id as_processed t3) _ tt (done events) 0 b told closed
          (refl, mark_as_processed-Runs 0 b told t4 key (24 * 3600) r4)))

answered :
    (raw : Payload) (r : Result Failure Answer × Hub) (events : ℕ)
    → r.0 ≡ ok (done events)
    → status_code (or_failed raw r) ≡ (200, r.1)
answered raw (ok (done n), t) events e = refl
answered raw (ok already, t) events e = cc
answered raw (ok not_done, t) events e = cc
answered raw (err x, t) events e = cc

abbrev start_of : Payload → String → Hub → Hub
start_of raw key s = record s {
  writes_left = s.writes_left - 1;
  hooks = s.hooks ++ new_hook raw key ∷ [];
}

module _ (hash : KeyData → String) (raw : Payload) (timestamp : String) (s : Hub)
    (fresh : IsFresh hash raw timestamp s) where
  key : String
  key = generate_idempotency_key hash raw timestamp s.now

  inserted : insert_hook raw key s ≡ (ok tt, start_of raw key s)
  unfolding insert_hook write key
  inserted =
      let first : (s.writes_left == 0) ≡ false = ground (arith, fresh.writes) in
      rw (fresh.fits, fresh.new, fresh.key_free, first) refl

  handled :
      (b : Bool) (told : List Payload) (events : ℕ)
      → ((u : Hub) → Runs 2 b s.topic u → Ends (publish_webhook_event raw u) events 1 b told)
      → s.broker_up ≡ b
      → (handle_webhook hash raw timestamp s ≡ (200, (publish_new raw key (start_of raw key s)).1))
        × ((publish_new raw key (start_of raw key s)).1.topic ≡ told)
  unfolding handle_webhook process_webhook process_new key
  handled b told events publishes broker =
      let (fine, runs) =
        publish_new-Ends raw key b s.topic told events (start_of raw key s) publishes
          (record { left = omega (arith, fresh.writes); broker = broker; told = refl }) in
      (
        rw (fresh.accepted, fresh.unseen, inserted)
            (answered raw (publish_new raw key (start_of raw key s)) events fine),
        runs.told,
      )

  stored : rows raw.id (publish_new raw key (start_of raw key s)).1.hooks ≡ 1
  stored =
      let start = start_of raw key s in
      let rest = publish_new-IsRest raw.id raw start key in
      let more = rows-append raw.id (new_hook raw key) s.hooks fresh.new in
      ground
        (arith, rest.stay, more, eq_refl raw.id, rows-le raw.id (publish_new raw key start).1.hooks)

  -- An accepted webhook that fits the schema of its row, whose id and idempotency key neither MongoDB nor Redis knows, with the
  -- broker up and MongoDB taking four writes: the body is published once, as it came, and the
  -- answer is 200, whether Redis is up or not.
  pub handle_webhook-publishes :
      s.broker_up ≡ true
      → ((handle_webhook hash raw timestamp s).0 ≡ 200)
        × ((handle_webhook hash raw timestamp s).1.topic ≡ s.topic ++ raw ∷ [])
  handle_webhook-publishes up =
      let (whole, told) =
        handled true (s.topic ++ raw ∷ []) 1 (λ u. publish_webhook_event-up raw 1 s.topic u) up in
      (ap (λ r. r.0) whole, ap (λ r. r.1.topic) whole ∙ told)

  -- An accepted webhook that fits the schema of its row, whose id and idempotency key neither MongoDB nor Redis knows, with MongoDB
  -- taking four writes and the broker down: the answer is 200 too, and nothing of the webhook's id
  -- is published, then or by any later deliveries and retries.
  pub handle_webhook-loses :
      (later : List Arrival)
      → s.broker_up ≡ false
      → ((handle_webhook hash raw timestamp s).0 ≡ 200)
        × (sent raw.id (serve_all hash later (handle_webhook hash raw timestamp s).1).topic
            ≡ sent raw.id s.topic)
  handle_webhook-loses later down =
      let (whole, told) =
        handled false s.topic 0 (λ u. publish_webhook_event-down raw 1 s.topic u) down in
      let after = (publish_new raw key (start_of raw key s)).1 in
      (
        ap (λ r. r.0) whole,
        ap (λ r. sent raw.id (serve_all hash later r.1).topic) whole
            ∙ serve_all-silent hash raw.id later after stored
            ∙ ap (sent raw.id) told,
      )
