-- ===== src/Webhook.antt =====
-- The webhook service: the rows of webhook/src/models/sepay.model.js, the keys of idempotency in
-- Redis, the topic to payment-service, and what processes one webhook,
-- webhook/src/services/sepayWebhook.service.js. MongoDB takes `writes_left` more writes; Redis and
-- the broker are up or down. The hash of the idempotency key is a parameter, and so is what Mongoose
-- can cast.
pub mod Process
pub mod Once
pub mod Retry
pub mod Fresh
pub mod Deliveries
use metro_backend.Prelude.{
  ℕ, ◌+◌, ◌-◌, ◌*◌, ◌==◌, ◌&&◌, ◌||◌, Bool, true, false, not, String, str_eq, Option, none, some,
  List, [], ◌∷◌, ◌++◌, map, take, keep, ok, err, leb, ltb, if◌then◌else◌, Action, Result, Text,
  codes, text_eq, any, ◌>>=◌, ◌>>◌, pure, require, get_state,
}
use metro_backend.Sepay.{Payload, is_sepay_bank_webhook, or_zero, is_some}

pub data HookStatus : Type 0 where
  received processing processed failed duplicate : HookStatus

-- The columns that the code here reads or decides by; `events_published` holds whether each
-- publish went well.
pub record Hook : Type 0 where
  pub webhook_id : String
  pub idempotency_key : String
  pub raw_payload : Payload
  pub status : HookStatus
  pub processing_attempts : ℕ
  pub last_processed_at : ℕ
  pub events_published : List Bool

-- A key in Redis with the time at which it is gone.
pub record Key : Type 0 where
  pub name : String
  pub gone_at : ℕ

-- `casts` holds whether Mongoose can cast what a row keeps of a body, its dates among it.
pub record Hub : Type 0 where
  pub now : ℕ
  pub redis_up : Bool
  pub broker_up : Bool
  pub writes_left : ℕ
  pub casts : Payload → Bool
  pub keys : List Key
  pub hooks : List Hook
  pub topic : List Payload

pub data Failure : Type 0 where
  db_error duplicate_key invalid_hook publish_error : Failure

pub data Answer : Type 0 where
  done : ℕ → Answer
  already : Answer
  not_done : Answer

abbrev pub Handler : Type 0 → Type 0
Handler = Action Hub Failure

-- What the idempotency key is made of. `transactionDate`, or the header of the older format, and
-- the clock where it is missing.
pub data Stamp : Type 0 where
  given : String → Stamp
  clock : ℕ → Stamp

pub data KeyData : Type 0 where
  bank_key : String → ℕ → String → Stamp → KeyData
  event_key : String → Text → String → Stamp → KeyData

abbrev stamp_of : String → ℕ → Stamp
stamp_of date now = if str_eq date "" then clock now else given date

abbrev pub resource_id_of : Payload → String
resource_id_of raw = elim raw.resource [ none ↦ "" | some r ↦ r.id ]

-- The header `sepay-timestamp` is empty where a request has none.
unfoldable pub generate_idempotency_key : (KeyData → String) → Payload → String → ℕ → String
generate_idempotency_key hash raw timestamp now =
    if is_sepay_bank_webhook raw
    then hash (
        bank_key raw.id (or_zero raw.transfer_amount) raw.reference_code
          (stamp_of raw.transaction_date now))
    else hash (event_key raw.id raw.event_type (resource_id_of raw) (stamp_of timestamp now))

-- `redis.get` of a key that is not gone; without Redis nothing counts as processed.
abbrev holds : String → ℕ → Key → Bool
holds name now k = str_eq k.name name && ltb now k.gone_at

unfoldable pub is_processed : String → Hub → Bool
is_processed key s = if s.redis_up then any (holds key s.now) s.keys else false

-- `redis.set` with a time to live in seconds; an error is only logged.
unfoldable pub mark_as_processed : String → ℕ → Hub → Hub
mark_as_processed key ttl s =
    if s.redis_up
    then record s {
      keys =
          record { name = key; gone_at = s.now + ttl * 1000 }
          ∷ keep (λ k. not (str_eq k.name key)) s.keys;
    }
    else s

-- One statement that writes to MongoDB.
unfoldable pub write : (Hub → Hub) → Handler (Unit {0})
write f s =
    if s.writes_left == 0
    then (err db_error, s)
    else (ok tt, f (record s { writes_left = s.writes_left - 1 }))

abbrev pub has_webhook_id : String → Hook → Bool
has_webhook_id id h = str_eq h.webhook_id id

abbrev pub has_key : String → Hook → Bool
has_key key h = str_eq h.idempotency_key key

-- `findOne`.
unfoldable pub find_hook : (Hook → Bool) → List Hook → Option Hook
find_hook p [] = none
find_hook p (h ∷ hs) = let rest = find_hook p hs in if p h then some h else rest

-- `save` of a row that is stored: by its webhook id, which is unique.
unfoldable pub update_hooks : String → (Hook → Hook) → List Hook → List Hook
update_hooks id f [] = []
update_hooks id f (h ∷ hs) =
    let rest = update_hooks id f hs in if has_webhook_id id h then f h ∷ rest else h ∷ rest

unfoldable pub save_hook : String → (ℕ → Hook → Hook) → Handler (Unit {0})
save_hook id f = write (λ s. record s { hooks = update_hooks id (f s.now) s.hooks })

abbrev pub as_processing : ℕ → Hook → Hook
as_processing now h = record h {
  status = processing;
  processing_attempts = h.processing_attempts + 1;
  last_processed_at = now;
}

abbrev pub as_processed : ℕ → Hook → Hook
as_processed now h = record h { status = processed; last_processed_at = now }

abbrev pub as_failed : ℕ → Hook → Hook
as_failed now h = record h { status = failed; last_processed_at = now }

abbrev pub as_duplicate : ℕ → Hook → Hook
as_duplicate now h = record h { status = duplicate }

abbrev pub with_event : Bool → ℕ → Hook → Hook
with_event success now h = record h { events_published = h.events_published ++ success ∷ [] }

abbrev pub supported_events : List Text
supported_events =
    codes "PAYMENT.CAPTURE.COMPLETED"
    ∷ codes "PAYMENT.CAPTURE.DENIED"
    ∷ codes "PAYMENT.CAPTURE.PENDING"
    ∷ codes "CHECKOUT.ORDER.COMPLETED"
    ∷ codes "PAYMENT.CAPTURE.REFUNDED"
    ∷ []

-- What the schema asks of a row: the required texts, the values of the enums, and the casts.
unfoldable pub fits_schema : (Payload → Bool) → Payload → Bool
fits_schema casts raw =
    not (str_eq raw.id "")
    && casts raw
    && (is_sepay_bank_webhook raw
        || any (text_eq raw.event_type) supported_events
          && (any (str_eq raw.resource_type)
                ("capture" ∷ "order" ∷ "payment" ∷ "refund" ∷ "bank_transfer" ∷ [])
              && not (str_eq (resource_id_of raw) "")))

abbrev pub new_hook : Payload → String → Hook
new_hook raw key = record {
  webhook_id = raw.id;
  idempotency_key = key;
  raw_payload = raw;
  status = received;
  processing_attempts = 0;
  last_processed_at = 0;
  events_published = [];
}
