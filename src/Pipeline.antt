-- ===== src/Pipeline.antt =====
-- A payment by bank transfer across the services: the webhook service, the topic
-- `sepay.webhook.event`, payment-service, its topics and ticket-service. Kafka
-- delivers each message of a topic at any time, in any order and any number of times.
pub mod Accepted
pub mod Backed
pub mod Reached
pub mod Paid
use metro_backend.Prelude.{ℕ, Bool, ◌≡◌, ◌⊎◌, String, List, [], ◌∷◌, ◌++◌, ok}
use metro_backend.Sepay.{Payload}
use metro_backend.Webhook.{Hub, KeyData}
use metro_backend.Webhook.Deliveries.{Arrival}
use metro_backend.Webhook.Deliveries as Deliveries
use metro_backend.Payments.{Store, Event, payment_completed, ticket_payment_ready}
use metro_backend.Payments.Notices.{handle_webhook_payload}
use metro_backend.Payments.Orders.{PaymentData, process_payment}
use metro_backend.Payments.Cancelled.{TicketCancelled, handle_ticket_cancelled}
use metro_backend.Ticket.{System}
use metro_backend.Ticket.Events.{process_payment_completed_event, process_payment_ready_event}

pub record Line : Type 0 where
  pub hub : Hub
  pub store : Store
  pub tickets : System

abbrev pub In : {A : Type 0} → A → List A → Type 0
In x [] = ⊥
In x (y ∷ ys) = (x ≡ y) ⊎ In x ys

-- What one service does, or what stands around it.
pub data Step (hash : KeyData → String) (l : Line) : Line → Type 0 where
  -- The webhook service serves a webhook or a retry, or its surroundings change.
  arrives : (a : Arrival) → Step hash l (record l { hub = Deliveries.serve hash a l.hub })
  -- payment-service handles a message of `sepay.webhook.event`.
  noticed :
      (raw : Payload)
      → In raw l.hub.topic
      → Step hash l (record l { store = (handle_webhook_payload raw l.store).1 })
  ordered : (d : PaymentData) → Step hash l (record l { store = (process_payment d l.store).1 })
  cancelled :
      (event : TicketCancelled)
      → Step hash l (record l { store = (handle_ticket_cancelled event l.store).1 })
  around_payments :
      (writes : ℕ) (broker : Bool) (now : ℕ)
      → Step hash l (record l {
        store = record l.store { writes_left = writes; broker_up = broker; now = now };
      })
  -- ticket-service handles a message of `payment.completed`.
  paid :
      (payment ticket passenger : String) (amount : ℕ)
      → In (payment_completed payment ticket passenger amount) l.store.events
      → Step hash l
          (record l { tickets = (process_payment_completed_event ticket payment l.tickets).1 })
  -- ticket-service handles a message of `ticket.payment_ready`.
  readied :
      (ticket payment : String)
      → In (ticket_payment_ready ticket payment) l.store.events
      → Step hash l (record l { tickets = (process_payment_ready_event ticket l.tickets).1 })

pub data Reach (hash : KeyData → String) (l : Line) : Line → Type 0 where
  here : Reach hash l l
  next : {m n : Line} → Reach hash l m → Step hash m n → Reach hash l n

-- The pipeline beside what it is not made of, with the events that this publishes.
pub record Setting : Type 0 where
  pub line : Line
  pub elsewhere : List Event

-- A step of the pipeline, or something else: another part of payment-service (the payments by
-- PayPal and VNPay, its static handler of SePay) leaves any tables and publishes an event, or
-- ticket-service leaves any rows.
pub data Move (hash : KeyData → String) (w : Setting) : Setting → Type 0 where
  stepped : {m : Line} → Step hash w.line m → Move hash w (record w { line = m })
  published_elsewhere :
      (store : Store) (e : Event)
      → Move hash w (record {
        line = record w.line { store = record store { events = w.line.store.events ++ e ∷ [] } };
        elsewhere = e ∷ w.elsewhere;
      })
  ticketed :
      (tickets : System) → Move hash w (record w { line = record w.line { tickets = tickets } })

pub data Run (hash : KeyData → String) (w : Setting) : Setting → Type 0 where
  begins : Run hash w w
  moves : {u v : Setting} → Run hash w u → Move hash u v → Run hash w v
