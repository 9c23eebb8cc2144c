-- ===== src/Payments/Paid.antt =====
-- A bank transfer that pays an order.
use metro_backend.Prelude.{
  ℕ, zero, suc, ◌+◌, ◌-◌, ◌≡◌, refl, ap, ◌∙◌, true, false, ◌==◌, ==_iff, String, none, some, List,
  [], ◌∷◌, ◌++◌, arith, ok, err, Text, All, codes, length,
}
use metro_backend.Sepay.{Payload, is_sepay_bank_webhook}
use metro_backend.Sepay.Content.{words, uuid, hexes, ticket_id_in}
use metro_backend.Sepay.Content.Match.{Fits, NotFirst}
use metro_backend.Sepay.Content.Named.{ticket_id_in-uuid, ticket_id_in-plain, Fits-IsHex, IsHex}
use metro_backend.Sepay.Content.Dashes.{without_dashes, uuid_format-without_dashes}
use metro_backend.Payments.{
  Payment, pending, completed, Store, write, publish, find_payment, of_ticket, LogType,
  publish_error,
}
use metro_backend.Payments.Notices.{
  handle_webhook_payload, normalize_payload, normalize_sepay_bank_payload, payment_named,
  payment_of_ticket, settle_payment, does_settle, complete, as_completed, with_payment,
  with_transaction, with_log, all_hex,
}
use metro_backend.Payments.Sound.{notice_of}

-- The tables and the events when a payment was completed, with the writes that are left.
abbrev pub settled_store : Payment → ℕ → Store → Store
settled_store p w s =
    record (with_log p LogType.webhook completed
      (with_transaction p (with_payment (as_completed s.now) p.payment_id s))) {
        writes_left = w;
        events = s.events ++ notice_of p ∷ [];
      }

-- The transfer that the payer of an order makes: incoming, of its amount, and with a content that
-- has the order's description after a text with no letter p. The bank leaves the ticket's id as it
-- is, before any text, or drops its dashes at the end of the content.
pub data Describes (ticket : Text) (content : Text) : Type 0 where
  dashed :
      (before after : Text)
      → All NotFirst before
      → content ≡ before ++ (words ++ (ticket ++ after))
      → Describes ticket content
  stripped :
      (before : Text)
      → All NotFirst before
      → content ≡ before ++ (words ++ without_dashes ticket)
      → Describes ticket content

pub record IsTransfer (p : Payment) (raw : Payload) : Type 0 where
  pub content : Text
  pub incoming : raw.transfer_type ≡ some "in"
  pub gateway : String
  pub bank : raw.gateway ≡ some gateway
  pub carries : raw.content ≡ some content
  pub exact : raw.transfer_amount ≡ some p.payment_amount
  pub describes : Describes (codes p.ticket_id) content

all_hex-IsHex : (t : Text) → All IsHex t → all_hex t ≡ true
all_hex-IsHex [] h = refl
all_hex-IsHex (c ∷ t) h = rw (h.0) (all_hex-IsHex t h.1)

length-hexes : (n : ℕ) (t : Text) → Fits (hexes n) t → length t ≡ n
length-hexes zero [] h = refl
length-hexes zero (c ∷ t) h = elim h [ ]
length-hexes (suc n) [] h = elim h [ ]
length-hexes (suc n) (c ∷ t) h = omega (arith, length-hexes n t h.1)

-- The payment of a ticket by its id, or by its id without the dashes.
module _ (p : Payment) (rows : List Payment)
    (mine : find_payment (of_ticket (codes p.ticket_id)) rows ≡ some p) where
  payment_of_ticket-dashed : payment_of_ticket (codes p.ticket_id) rows ≡ some p
  unfolding payment_of_ticket
  payment_of_ticket-dashed = rw mine refl

  payment_of_ticket-stripped :
      Fits uuid (codes p.ticket_id)
      → find_payment (of_ticket (without_dashes (codes p.ticket_id))) rows ≡ none
      → payment_of_ticket (without_dashes (codes p.ticket_id)) rows ≡ some p
  unfolding payment_of_ticket
  payment_of_ticket-stripped fits nobody =
      let (digits, same) = uuid_format-without_dashes (codes p.ticket_id) fits in
      let long : (length (without_dashes (codes p.ticket_id)) == 32) ≡ true =
        (==_iff (length (without_dashes (codes p.ticket_id))) 32).1
          (length-hexes 32 (without_dashes (codes p.ticket_id)) digits) in
      let hexed : all_hex (without_dashes (codes p.ticket_id)) ≡ true =
        all_hex-IsHex (without_dashes (codes p.ticket_id))
          (Fits-IsHex 32 (without_dashes (codes p.ticket_id)) digits) in
      rw (nobody, long, hexed, same) mine

-- An order by SePay that waits for its transfer: the id of its ticket is a UUID, its row is the
-- only one that the ticket finds, and no other ticket goes by the id without dashes.
pub record IsWaiting (p : Payment) (s : Store) : Type 0 where
  pub is_uuid : Fits uuid (codes p.ticket_id)
  pub mine : find_payment (of_ticket (codes p.ticket_id)) s.payments ≡ some p
  pub nobody : find_payment (of_ticket (without_dashes (codes p.ticket_id))) s.payments ≡ none
  pub waits : p.payment_status ≡ pending

named :
    (p : Payment) (s : Store) (content : Text)
    → IsWaiting p s
    → Describes (codes p.ticket_id) content
    → (id : Text) × (ticket_id_in content ≡ some id) × (payment_of_ticket id s.payments ≡ some p)
named p s content waiting (dashed before after early e) = (
  codes p.ticket_id,
  ap ticket_id_in e ∙ ticket_id_in-uuid before (codes p.ticket_id) after early waiting.is_uuid,
  payment_of_ticket-dashed p s.payments waiting.mine,
)
named p s content waiting (stripped before early e) =
    let id = without_dashes (codes p.ticket_id) in
    (
      id,
      ap ticket_id_in e
          ∙ ticket_id_in-plain before id early
              (uuid_format-without_dashes (codes p.ticket_id) waiting.is_uuid).0,
      payment_of_ticket-stripped p s.payments waiting.mine waiting.is_uuid waiting.nobody,
    )

module _ (p : Payment) (s : Store) (raw : Payload) (waiting : IsWaiting p s)
    (transfer : IsTransfer p raw) where
  transfer-named : payment_named (normalize_payload raw) s.payments ≡ some p
  unfolding payment_named normalize_payload normalize_sepay_bank_payload is_sepay_bank_webhook
  transfer-named =
      let (id, found, row) = named p s transfer.content waiting transfer.describes in
      rw (transfer.bank, transfer.incoming, transfer.carries, transfer.exact, found) row

  transfer-settles : does_settle (normalize_payload raw) p ≡ true
  unfolding does_settle normalize_payload normalize_sepay_bank_payload is_sepay_bank_webhook
  transfer-settles =
      rw
        (
          transfer.bank,
          transfer.incoming,
          transfer.carries,
          transfer.exact,
          waiting.waits,
          (==_iff p.payment_amount p.payment_amount).1 refl,
        )
        refl

  -- An order that waits, a transfer of its amount whose content describes it, a database that
  -- takes three writes and a broker that is up: the message completes the row now, adds one
  -- transaction of the amount and one log row, publishes `payment.completed`, and changes nothing
  -- else. The content has the words and the ticket's UUID as it is before any text, or without its
  -- dashes at the end, after a text with no letter p.
  pub transfer-completes :
      (w : ℕ)
      → s.writes_left ≡ w + 3
      → s.broker_up ≡ true
      → handle_webhook_payload raw s ≡ (ok tt, settled_store p w s)
  unfolding handle_webhook_payload settle_payment complete write publish
  transfer-completes w left up =
      let first : (s.writes_left == 0) ≡ false = ground arith in
      let second : (s.writes_left - 1 == 0) ≡ false = ground arith in
      let third : (s.writes_left - 1 - 1 == 0) ≡ false = ground arith in
      let rest : s.writes_left - 1 - 1 - 1 ≡ w = omega arith in
      rw (transfer-named, transfer-settles, first, second, third, up, rest) refl

  -- With the broker down the event is lost, and stays lost.
  pub transfer-unsent :
      (w : ℕ)
      → s.writes_left ≡ w + 3
      → s.broker_up ≡ false
      → handle_webhook_payload raw s
        ≡ (err publish_error, record (settled_store p w s) { events = s.events })
  unfolding handle_webhook_payload settle_payment complete write publish
  transfer-unsent w left down =
      let first : (s.writes_left == 0) ≡ false = ground arith in
      let second : (s.writes_left - 1 == 0) ≡ false = ground arith in
      let third : (s.writes_left - 1 - 1 == 0) ≡ false = ground arith in
      let rest : s.writes_left - 1 - 1 - 1 ≡ w = omega arith in
      rw (transfer-named, transfer-settles, first, second, third, down, rest) refl
