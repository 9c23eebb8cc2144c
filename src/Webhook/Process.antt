-- ===== src/Webhook/Process.antt =====
-- `processWebhook`, the retry of what failed and the endpoint:
-- webhook/src/services/sepayWebhook.service.js and webhook/src/controllers/sepay.controller.js.
use metro_backend.Prelude.{
  ◌*◌, ℕ, ◌==◌, ◌&&◌, ◌||◌, Bool, true, false, not, String, str_eq, Option, none, some, List, [],
  ◌∷◌, ◌++◌, take, keep, ok, err, leb, if◌then◌else◌, Result, Text, text_eq, any, ◌>>=◌, ◌>>◌, pure,
}
use metro_backend.Sepay.{Payload, is_sepay_bank_webhook, or_zero, is_some, or_empty}
use metro_backend.Webhook.{
  HookStatus, Hook, Hub, Failure, duplicate_key, invalid_hook, publish_error, Answer, done, already,
  not_done, Handler, KeyData, generate_idempotency_key, is_processed, mark_as_processed, write,
  has_webhook_id, has_key, find_hook, save_hook, as_processing, as_processed, as_failed,
  as_duplicate, with_event, supported_events, fits_schema, new_hook,
}

-- The first `save` of a new row: the schema, and the two unique indexes.
unfoldable pub insert_hook : Payload → String → Handler (Unit {0})
insert_hook raw key s =
    if not (fits_schema s.casts raw)
    then (err invalid_hook, s)
    else if is_some (find_hook (has_webhook_id raw.id) s.hooks)
        || is_some (find_hook (has_key key) s.hooks)
    then (err duplicate_key, s)
    else write (λ w. record w { hooks = w.hooks ++ new_hook raw key ∷ [] }) s

-- `publish` of the hook producer: the body as it came.
unfoldable pub publish : Payload → Handler (Unit {0})
publish raw s =
    if s.broker_up
    then (ok tt, record s { topic = s.topic ++ raw ∷ [] })
    else (err publish_error, s)

abbrev pub caught : Result Failure (Unit {0}) × Hub → Handler ℕ → Result Failure ℕ × Hub
caught (ok tt, s) handler = (ok 1, s)
caught (err e, s) handler = handler s

-- The publish and its record in the row; an error of either is caught, and recorded. The number of
-- events that were published.
unfoldable pub publish_webhook_event : Payload → Handler ℕ
publish_webhook_event raw s =
    caught ((publish raw >> save_hook raw.id (with_event true)) s)
      (save_hook raw.id (with_event false) >> pure 0)

abbrev pub update_redis : String → ℕ → Handler (Unit {0})
update_redis key ttl s = (ok tt, mark_as_processed key ttl s)

-- What follows once the row is stored.
unfoldable pub publish_new : Payload → String → Handler Answer
publish_new raw key = do
  save_hook raw.id as_processing
  update_redis key 3600
  events ← publish_webhook_event raw
  save_hook raw.id as_processed
  update_redis key (24 * 3600)
  pure (done events)

unfoldable pub process_new : Payload → String → Handler Answer
process_new raw key = do insert_hook raw key; publish_new raw key

abbrev duplicate_of : Option Hook → Handler Answer
duplicate_of none = pure already
duplicate_of (some h) = do save_hook h.webhook_id as_duplicate; pure already

unfoldable pub mark_duplicate : String → Handler Answer
mark_duplicate key s = duplicate_of (find_hook (has_key key) s.hooks) s

-- The `catch`: the row of the webhook id is marked, unless that fails too.
abbrev pub or_failed : Payload → Result Failure Answer × Hub → Answer × Hub
or_failed raw (ok answer, s) = (answer, s)
or_failed raw (err e, s) = (not_done, (save_hook raw.id as_failed s).1)

unfoldable pub process_webhook : (KeyData → String) → Payload → String → Hub → Answer × Hub
process_webhook hash raw timestamp s =
    let key = generate_idempotency_key hash raw timestamp s.now in
    or_failed raw (if is_processed key s then mark_duplicate key s else process_new raw key s)

-- `find({ status: 'failed' }).sort({ lastProcessedAt: -1 }).limit(limit)`.
abbrev pub is_failed : Hook → Bool
is_failed h = elim h.status [ HookStatus.failed ↦ true | _ ↦ false ]

abbrev pub insert_late : Hook → List Hook → List Hook
insert_late h [] = h ∷ []
insert_late h (g ∷ gs) =
    let rest = insert_late h gs in
    if leb g.last_processed_at h.last_processed_at then h ∷ g ∷ gs else g ∷ rest

abbrev pub sort_late : List Hook → List Hook
sort_late [] = []
sort_late (h ∷ hs) = insert_late h (sort_late hs)

unfoldable pub get_failed_webhooks : ℕ → Hub → List Hook
get_failed_webhooks limit s = take limit (sort_late (keep is_failed s.hooks))

-- A stored row names its headers otherwise than a request, so that no timestamp is found.
unfoldable pub retry_each : (KeyData → String) → List Hook → Hub → Hub
retry_each hash [] s = s
retry_each hash (h ∷ hs) s = retry_each hash hs (process_webhook hash h.raw_payload "" s).1

unfoldable pub retry_failed_webhooks : (KeyData → String) → ℕ → Hub → Hub
retry_failed_webhooks hash limit s = retry_each hash (get_failed_webhooks limit s) s

abbrev filled : Option String → Bool
filled none = false
filled (some t) = not (str_eq t "")

abbrev is_empty : Text → Bool
is_empty [] = true
is_empty (c ∷ cs) = false

abbrev is_incoming : Option String → Bool
is_incoming none = false
is_incoming (some t) = str_eq t "in"

-- A text that is not empty, an amount that is not zero.
unfoldable pub validate_event_structure : Payload → Bool
validate_event_structure raw =
    if is_sepay_bank_webhook raw
    then not (str_eq raw.id "")
      && (filled raw.gateway
          && (is_incoming raw.transfer_type
              && (not (is_empty (or_empty raw.content)) && not (or_zero raw.transfer_amount == 0))))
    else not (str_eq raw.id "")
      && (not (str_eq raw.resource_type "")
          && (is_some raw.resource && any (text_eq raw.event_type) supported_events))

abbrev looks_right : Payload → Bool
looks_right raw =
    filled raw.gateway && (filled raw.transfer_type && not (is_empty (or_empty raw.content)))
    || not (str_eq raw.id "") && not (is_empty raw.event_type)

abbrev pub status_code : Answer × Hub → ℕ × Hub
status_code (done events, s) = (200, s)
status_code (already, s) = (200, s)
status_code (not_done, s) = (422, s)

-- Both checks of the endpoint.
unfoldable pub is_accepted : Payload → Bool
is_accepted raw = looks_right raw && validate_event_structure raw

-- The status of the answer.
unfoldable pub handle_webhook : (KeyData → String) → Payload → String → Hub → ℕ × Hub
handle_webhook hash raw timestamp s =
    if is_accepted raw then status_code (process_webhook hash raw timestamp s) else (400, s)
