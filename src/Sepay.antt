-- ===== src/Sepay.antt =====
-- What SePay sends: the body of its webhook, which webhook/src/services/sepayWebhook.service.js
-- passes on, and which payment-service reads. A text is empty and an amount `none` where the body
-- has no such field, which the code treats alike, but for the four fields that tell a bank
-- transfer from the older format. Amounts are whole.
pub mod Content
use metro_backend.Prelude.{[], ◌∷◌, ℕ, Bool, true, false, ◌&&◌, String, Option, none, some, Text}

pub record Resource : Type 0 where
  pub id : String
  pub status : Text
  pub description : Text
  pub custom_id : Text
  pub amount : Option ℕ

pub record Payload : Type 0 where
  pub id : String
  pub gateway : Option String
  pub transfer_type : Option String
  pub content : Option Text
  pub transfer_amount : Option ℕ
  pub reference_code : String
  pub transaction_date : String
  pub status : Text
  pub description : Text
  pub amount : Option ℕ
  pub event_type : Text
  pub resource_type : String
  pub custom_id : Text
  pub resource : Option Resource

-- `hasOwnProperty`.
abbrev pub is_some : {A : Type 0} → Option A → Bool
is_some none = false
is_some (some a) = true

unfoldable pub is_sepay_bank_webhook : Payload → Bool
is_sepay_bank_webhook raw =
    is_some raw.gateway
    && (is_some raw.transfer_type && (is_some raw.content && is_some raw.transfer_amount))

-- `x || y` on texts and amounts.
abbrev pub or_text : Text → Text → Text
or_text [] y = y
or_text (c ∷ x) y = c ∷ x

abbrev pub or_zero : Option ℕ → ℕ
or_zero none = 0
or_zero (some n) = n

abbrev pub or_empty : Option Text → Text
or_empty none = []
or_empty (some t) = t
