-- ===== src/Lib.antt =====
-- The core of the metro backend: the life of a ticket from its payment to its last use, the bank
-- transfer that pays for it on its way through the services, the routes that it is used on, and the
-- accounts of its passengers.
--
-- ticket-service keeps one row for each ticket (ticket-service/src/models/ticket.model.js). Requests
-- of passengers and gates, events of the payment service and jobs of the clock read and write the
-- rows. A state is the time, the broker's state, the rows and the events that were published; each
-- handler is an action on it that answers or throws, with what it wrote before a throw kept.
--
-- The bank reports a transfer to the webhook service, which stores it and publishes its body; from
-- that payment-service completes a payment and publishes `payment.completed`; and ticket-service
-- sets the ticket to paid. Each of the three keeps a state of its own, and Kafka stands between.
--
-- Ticket              the row, the table, findByPk and update, and how a handler is built
-- Ticket.Calendar     services/ticket/domain/TicketValidityService.js: the term of each type
-- Ticket.Activation   TicketActivationService.js, Ticket.startCountDown, _activateTicketInternal
-- Ticket.Rotation     services/ticket/helpers/RotationQRCode.helper.js: the rotating codes
-- Ticket.Abuse        services/ticket/handlers/TicketAbused.js
-- Ticket.Usage        useTicket, useTicketByQRCode and the handlers they call in
--                     services/ticket/services/TicketService.js
-- Ticket.Transitions  TicketStatusService.js, and cancelTicket
-- Ticket.Payment      handlers/PaymentCompletionHandler.js
-- Ticket.Events       the payment events of controllers/ticket.controller.js
-- Ticket.Validator    TicketValidatorService.js
-- Ticket.Expiry       expireTickets in its batches, and cron/activateTickets.job.js
-- Ticket.Edits        updateTicket and deleteTicket of staff
-- Ticket.Requests     every request, event and job above that can change a row as one step, and
--                     sequences of them
-- Ticket.UseLimit     the limit on uses under each request, and under all of them in any order
-- Ticket.Cancelled    a cancelled ticket under each request, and under all of them in any order
-- Idempotency         helpers/IdempotencyHelper.js for one key: callers interleaved at their awaits,
--                     the store in Redis, and the store in memory that stands in for it
-- Idempotency.Normalize  the normalization of the data that a key is made of
-- Route               transport-service/src/services/routeStation.service.js: the stops of a route
-- Route.ShortestPath  findShortestPathWithTransfers in that file, which goes through the next five
-- Route.Graph         its neighbours of each station, along the routes
-- Route.Queue         what its search relies on in a priority queue; Route.Heap is its MinHeap, with
--                     Route.Heap.Instance that fills the interface
-- Route.Search        its search, over any such queue and any edges
-- Route.Path          its path, followed back along prev
-- Route.Segments      its segments and transfers, from the path
-- Account             auth-service/src/services/user.service.js and models/user.model.js: accounts, the
--                     lock after failed logins, sign-up and the reset of a password
-- Account.Requests    what is asked of it, from the sign-up to the deletion
-- Prelude.Trim        the trim of a string
-- Account.Sessions    logins and what they leave for later, as events in any order
-- Sepay               what SePay sends, as both services read it; Sepay.Content is the search for the
--                     ticket that the content of a transfer names
-- Webhook             webhook/src/models/sepay.model.js and services/sepayWebhook.service.js: the rows
--                     of the webhooks, the keys in Redis and the topic
-- Webhook.Process     processWebhook, retryFailedWebhooks and the endpoint that calls them
-- Webhook.Deliveries  webhooks and retries in any order; Webhook.Fresh one that is new
-- Payments            payment-service/src/models: payments, transactions, log rows, and the events
-- Payments.Notices    payment-service/src/events/hook_consumers/sepay.hook.consumer.js
-- Payments.Orders     SepayPaymentStrategy.js and createQr of sepay.service.js
-- Payments.Cancelled  handleTicketCancelled of payment-service/src/events/ticket.consumer.js
-- Payments.Vnpay      the answers of VNPay in payment-service/src/services/payment.service.js
-- Payments.Ledger     the sums of the tables for one payment
-- Payments.AnyOrder   notices and orders of SePay, and cancellations, in any order
-- Pipeline            the webhook service, payment-service and ticket-service with the topics between
--                     them, as a step relation: each message is handled at any time and any number of
--                     times; and the other publishers of payment-service beside it
-- RateLimit           api-gateway/src/middlewares/rateLimiter.js: the store of the rate limiters, whose
--                     connection may break between its two commands
-- RateLimit.Ending    requests that arrive and are taken back, as events in any order
-- Prelude             lists, numbers, results and actions that the parts share
-- Examples            runs on small tables, and the theorems applied to them
--
-- Paths above are under ticket-service/src where they name no service. Bounds and fuel: numbers are
-- natural numbers, since every number modelled is a time, a count or a digit below 2 ^ 53. The
-- batch loop of expireTickets has as fuel one more than the rows, which is enough because every
-- round but the last expires a row. The search has as fuel two more than the edges of the states
-- that it can come to, each of which it takes edges from once at most, and the way back along prev
-- one more than the distance, which falls on every step; that both suffice is proved. A loop of the
-- heap has its length.
--
-- The keyed hash of the rotating codes is a parameter, and so are the hash and the comparison of
-- passwords, the digest of a reset token and the validators of an account's columns. The transfer
-- penalty of a search is a natural number, and no id is empty, is `-` or holds a `|`. Times are in UTC; a statement
-- that is sent to the database of ticket-service, transport-service or auth-service succeeds. In
-- Webhook and Payments the database takes a number of writes that the surroundings set, and fails
-- at the next, the broker and Redis are up or down, and amounts are whole; a body is a record
-- whose missing texts are empty, and the hash of an idempotency key and what Mongoose can cast
-- are parameters. The time
-- stands still during one request, and requests do not overlap, except for the callers of one
-- idempotency key; what a login leaves for later runs as a task of its own.
--
-- Not modelled: prices, fares and promotions, whose amounts are JavaScript doubles; the listing
-- and reporting queries; the station details that findShortestPathWithTransfers adds to its path;
-- HTTP, Kafka and Redis themselves; the payments by PayPal, and the start of one by VNPay; the
-- business data that a webhook's row keeps for reports; the other services.
pub mod Prelude
pub mod Account
pub mod Idempotency
pub mod Payments
pub mod Pipeline
pub mod RateLimit
pub mod Route
pub mod Sepay
pub mod Ticket
pub mod Webhook
pub mod Examples
