-- ===== src/Pipeline/Paid.antt =====
-- A transfer that pays a ticket, from the webhook to the ticket's status.
use metro_backend.Prelude.{ℕ, ◌+◌, ◌≡◌, true, false, String, str_eq, some}
use metro_backend.Sepay.{Payload}
use metro_backend.Webhook.{KeyData}
use metro_backend.Webhook.Deliveries as Deliveries
use metro_backend.Webhook.Fresh.{IsFresh}
use metro_backend.Payments.{Payment}
use metro_backend.Payments.Paid.{IsWaiting, IsTransfer}
use metro_backend.Ticket.{Ticket, pending_payment, find_by_pk}
use metro_backend.Pipeline.{Line}

-- The webhook is new, the order waits for this transfer, everything is up, and so does the ticket.
pub record IsReady (hash : KeyData → String) (raw : Payload) (timestamp : String) (p : Payment)
    (t : Ticket) (w : ℕ) (l : Line) : Type 0 where
  pub fresh : IsFresh hash raw timestamp l.hub
  pub hub_up : l.hub.broker_up ≡ true
  pub waiting : IsWaiting p l.store
  pub transfer : IsTransfer p raw
  pub writes : l.store.writes_left ≡ w + 3
  pub store_up : l.store.broker_up ≡ true
  pub keyed : str_eq p.payment_id "" ≡ false
  pub row : find_by_pk p.ticket_id l.tickets.tickets ≡ some t
  pub unpaid : t.status ≡ pending_payment
