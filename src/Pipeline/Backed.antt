-- ===== src/Pipeline/Backed.antt =====
-- Every event `payment.completed` goes back to a webhook that was accepted.
use metro_backend.Prelude.{
  ℕ, ◌-◌, ◌≡◌, refl, subst, Bool, true, ◌==◌, ◌&&◌, ◌⊎◌, String, Option, none, some, List, [], ◌∷◌,
  ◌++◌, arith, Bool-cases, inl, inr, Option-cases, All, Text, codes, text_eq, map, length,
}
use metro_backend.Sepay.{Payload}
use metro_backend.Sepay.Content.{lower, uuid_format}
use metro_backend.Webhook.Once.{IsAccepted}
use metro_backend.Payments.{
  Payment, Store, Event, payment_completed, ticket_payment_ready, payment_cancelled, write, publish,
  find_payment, of_ticket, has_id_text,
}
use metro_backend.Payments.Notices.{
  Normalized, normalize_payload, complete, settle_payment, does_settle, same_amount, payment_named,
  payment_of_ticket, is_empty, all_hex,
}
use metro_backend.Payments.Orders.{
  PaymentData, process_payment, validate_payment_data, description_of,
}
use metro_backend.Payments.Sound.{notice_of, either}
use metro_backend.Payments.AnyOrder.{create_qr-cases}
use metro_backend.Pipeline.{Setting, In}
use metro_backend.Pipeline.Accepted.{IsFed}

-- The notice is about the payment: by its id, or by the id of its ticket with or without dashes.
pub data IsAbout (n : Normalized) (payment ticket : String) : Type 0 where
  by_payment : text_eq (codes payment) n.payment_id ≡ true → IsAbout n payment ticket
  by_ticket :
      (id : Text)
      → n.ticket_id ≡ some id
      → text_eq (codes ticket) id ≡ true
      → IsAbout n payment ticket
  by_digits :
      (id : Text)
      → n.ticket_id ≡ some id
      → text_eq (codes ticket) (uuid_format id) ≡ true
      → IsAbout n payment ticket

-- A notice of a completed transfer of the amount, about the payment.
pub record Pays (raw : Payload) (payment ticket : String) (amount : ℕ) : Type 0 where
  pub complete_status :
      text_eq (map lower (normalize_payload raw).status) (codes "completed") ≡ true
  pub exact : same_amount amount (normalize_payload raw).amount ≡ true
  pub about : IsAbout (normalize_payload raw) payment ticket

-- A body on the topic, which was accepted, that pays.
abbrev pub Paying : List Payload → String → String → ℕ → Type 0
Paying topic payment ticket amount =
    (raw : Payload) × In raw topic × IsAccepted raw × Pays raw payment ticket amount

-- The event was published elsewhere, or there is a body that pays.
abbrev pub Backed : List Payload → List Event → Event → Type 0
Backed topic others (payment_completed payment ticket passenger amount) =
    In (payment_completed payment ticket passenger amount) others
    ⊎ Paying topic payment ticket amount
Backed topic others (ticket_payment_ready ticket payment) = Unit
Backed topic others (payment_cancelled payment ticket) = Unit

find_payment-holds :
    (q : Payment → Bool) (ps : List Payment) (p : Payment) → find_payment q ps ≡ some p → q p ≡ true
unfolding find_payment
find_payment-holds q [] p e = cc
find_payment-holds q (r ∷ ps) p e = elim (Bool-cases (q r)) [
  | inl this ↦ (let same : r ≡ p = ground (arith, e, this) in subst (λ x. q x ≡ true) same this)
  | inr other ↦ find_payment-holds q ps p (ground (arith, e, other))
]

of_ticket-IsAbout :
    (n : Normalized) (id : Text) (ps : List Payment) (p : Payment)
    → n.ticket_id ≡ some id
    → payment_of_ticket id ps ≡ some p
    → IsAbout n p.payment_id p.ticket_id
unfolding payment_of_ticket
of_ticket-IsAbout n id ps p named e =
    elim (either (find_payment (of_ticket id) ps) (find_payment (of_ticket (uuid_format id)) ps)
      (length id == 32 && all_hex id) p e) [
        | inl exact ↦ by_ticket id named (find_payment-holds (of_ticket id) ps p exact)
        | inr dashed ↦
            by_digits id named (find_payment-holds (of_ticket (uuid_format id)) ps p dashed)
      ]

payment_named-IsAbout :
    (n : Normalized) (ps : List Payment) (p : Payment)
    → payment_named n ps ≡ some p
    → IsAbout n p.payment_id p.ticket_id
unfolding payment_named
payment_named-IsAbout n ps p e = elim (Bool-cases (is_empty n.payment_id)) [
  | inl by_name ↦ elim (Option-cases n.ticket_id) [
    | inl nameless ↦ absurd (ground (arith, e, by_name, nameless))
    | inr (id, named) ↦ of_ticket-IsAbout n id ps p named (ground (arith, e, by_name, named))
  ]
  | inr by_key ↦
      by_payment (find_payment-holds (has_id_text n.payment_id) ps p (ground (arith, e, by_key)))
]

complete-events :
    (p : Payment) (s : Store)
    → ((complete p s).1.events ≡ s.events)
      ⊎ ((complete p s).1.events ≡ s.events ++ notice_of p ∷ [])
unfolding complete write publish
complete-events p s = elim (Bool-cases (s.writes_left == 0)) [
  | inl gone ↦ inl (rw gone refl)
  | inr first ↦ elim (Bool-cases (s.writes_left - 1 == 0)) [
    | inl gone ↦ inl (rw (first, gone) refl)
    | inr second ↦ elim (Bool-cases (s.writes_left - 1 - 1 == 0)) [
      | inl gone ↦ inl (rw (first, second, gone) refl)
      | inr third ↦ elim (Bool-cases s.broker_up) [
        | inl up ↦ inr (rw (first, second, third, up) refl)
        | inr down ↦ inl (rw (first, second, third, down) refl)
      ]
    ]
  ]
]

module _ (others : List Event) where
  -- What was backed stays backed when the topic grows and an event is added that is backed.
  more-Backed :
      (topic after : List Payload) (e : Event)
      → ((x : Payload) → In x topic → In x after)
      → Backed topic others e
      → Backed after others e
  more-Backed topic after (payment_completed payment ticket passenger amount) kept (inl there) =
      inl there
  more-Backed topic after (payment_completed payment ticket passenger amount) kept
        (inr (raw, there, accepted, pays)) =
      inr (raw, kept raw there, accepted, pays)
  more-Backed topic after (ticket_payment_ready ticket payment) kept b = tt
  more-Backed topic after (payment_cancelled payment ticket) kept b = tt

  pub all-Backed :
      (topic after : List Payload) (es : List Event)
      → ((x : Payload) → In x topic → In x after)
      → All (Backed topic others) es
      → All (Backed after others) es
  all-Backed topic after [] kept h = tt
  all-Backed topic after (e ∷ es) kept h =
      (more-Backed topic after e kept h.0, all-Backed topic after es kept h.1)

  pub append-Backed :
      (topic : List Payload) (es : List Event) (e : Event)
      → All (Backed topic others) es
      → Backed topic others e
      → All (Backed topic others) (es ++ e ∷ [])
  append-Backed topic [] e h b = (b, tt)
  append-Backed topic (f ∷ es) e h b = (h.0, append-Backed topic es e h.1 b)

  also-Backed :
      (topic : List Payload) (new e : Event) → Backed topic others e → Backed topic (new ∷ others) e
  also-Backed topic new (payment_completed payment ticket passenger amount) (inl there) =
      inl (inr there)
  also-Backed topic new (payment_completed payment ticket passenger amount) (inr pays) = inr pays
  also-Backed topic new (ticket_payment_ready ticket payment) b = tt
  also-Backed topic new (payment_cancelled payment ticket) b = tt

  pub all_also-Backed :
      (topic : List Payload) (new : Event) (es : List Event)
      → All (Backed topic others) es
      → All (Backed topic (new ∷ others)) es
  all_also-Backed topic new [] h = tt
  all_also-Backed topic new (e ∷ es) h =
      (also-Backed topic new e h.0, all_also-Backed topic new es h.1)

pub new-Backed :
    (topic : List Payload) (others : List Event) (e : Event) → Backed topic (e ∷ others) e
new-Backed topic others (payment_completed payment ticket passenger amount) = inl (inl refl)
new-Backed topic others (ticket_payment_ready ticket payment) = tt
new-Backed topic others (payment_cancelled payment ticket) = tt

does_settle-Pays :
    (raw : Payload) (p : Payment)
    → does_settle (normalize_payload raw) p ≡ true
    → IsAbout (normalize_payload raw) p.payment_id p.ticket_id
    → Pays raw p.payment_id p.ticket_id p.payment_amount
unfolding does_settle
does_settle-Pays raw p h about = record {
  complete_status = ground (arith, h);
  exact = ground (arith, h);
  about = about;
}

module _ (topic : List Payload) (others : List Event) (s : Store)
    (backed : All (Backed topic others) s.events) where
  pub settle_payment-Backed :
      (raw : Payload) (o : Option Payment)
      → In raw topic
      → IsAccepted raw
      → payment_named (normalize_payload raw) s.payments ≡ o
      → All (Backed topic others) (settle_payment (normalize_payload raw) o s).1.events
  unfolding settle_payment
  settle_payment-Backed raw none there accepted e = backed
  settle_payment-Backed raw (some p) there accepted e =
      elim (Bool-cases (does_settle (normalize_payload raw) p)) [
        | inr leaves ↦ rw leaves backed
        | inl does ↦
            let pays =
              does_settle-Pays raw p does
                (payment_named-IsAbout (normalize_payload raw) s.payments p e) in
            rw does (elim (complete-events p s) [
              | inl same ↦ rw same backed
              | inr more ↦ rw more (
                  append-Backed others topic s.events (notice_of p) backed
                    (inr (raw, there, accepted, pays)))
            ])
      ]

  pub process_payment-Backed :
      (d : PaymentData) → All (Backed topic others) (process_payment d s).1.events
  unfolding process_payment write publish
  process_payment-Backed d = elim (Bool-cases (validate_payment_data d)) [
    | inr wrong ↦ rw wrong backed
    | inl valid ↦ elim (create_qr-cases d (description_of d) s) [
      | inl (e, w, failed) ↦ rw (valid, failed) backed
      | inr (w, free, done) ↦ elim (Bool-cases (w == 0)) [
        | inl gone ↦ rw (valid, done, gone) backed
        | inr left ↦ elim (Bool-cases s.broker_up) [
          | inl up ↦
              rw (valid, done, left, up)
                (append-Backed others topic s.events (ticket_payment_ready d.ticket_id d.payment_id)
                  backed tt)
          | inr down ↦ rw (valid, done, left, down) backed
        ]
      ]
    ]
  ]

-- The topic was fed by accepted bodies, and the events are backed by it or published elsewhere.
pub record IsBacked (w : Setting) : Type 0 where
  pub fed : IsFed w.line.hub w.line.hub
  pub backed : All (Backed w.line.hub.topic w.elsewhere) w.line.store.events
