-- ===== src/Ticket/Rotation/Scan.antt =====
-- The display QR of RotationQRCode.helper.js, read back by the gate of TicketService.js.
use metro_backend.Prelude.{
  ℕ, ◌+◌, ◌/◌, ◌%◌, ◌≤◌, ◌≡◌, refl, true, false, String, List, [], ◌∷◌, ◌++◌, Text, ℤ, pos,
  text_eq_iff, arith, some, ◌==◌, All,
}
use metro_backend.Ticket.{Ticket, System}
use metro_backend.Ticket.Rotation.{
  window_ms, truncated, modulus, six_digits, code_of, generate_code, build_display_qr,
}
use metro_backend.Ticket.Rotation.Drift.{verify_code-generate_code}
use metro_backend.Ticket.Usage.{before_colon, after_colon, is_six_digits, use_abused, handle_use}

-- A text without a colon, such as a base64 text.
abbrev pub HasNoColon : Text → Type 0
HasNoColon = All (λ c. (c == b':') ≡ false)

before_colon-append :
    (base rest : Text) → HasNoColon base → before_colon (base ++ b':' ∷ rest) ≡ base
before_colon-append [] rest h = refl
before_colon-append (c ∷ cs) rest h = ground (arith, before_colon-append cs rest h.1)

after_colon-append :
    (base rest : Text)
    → HasNoColon base
    → after_colon (base ++ b':' ∷ rest) ≡ some (before_colon rest)
after_colon-append [] rest h = refl
after_colon-append (c ∷ cs) rest h = ground (arith, after_colon-append cs rest h.1)

before_colon-six_digits : (n : ℕ) → before_colon (six_digits n) ≡ six_digits n
unfolding six_digits
before_colon-six_digits n = ground arith

six_digits-is_six_digits : (n : ℕ) → is_six_digits (six_digits n) ≡ true
unfolding six_digits
six_digits-is_six_digits n = ground arith

module _ (hmac : String → ℤ → List ℕ) where
  generate_code-before_colon :
      (secret : String) (now : ℕ)
      → before_colon (generate_code hmac secret now) ≡ generate_code hmac secret now
  unfolding generate_code code_of
  generate_code-before_colon secret now = before_colon-six_digits _

  -- Every code that is generated has six characters, all of them digits.
  generate_code-is_six_digits :
      (secret : String) (now : ℕ) → is_six_digits (generate_code hmac secret now) ≡ true
  unfolding generate_code code_of
  generate_code-is_six_digits secret now =
      six_digits-is_six_digits (truncated (hmac secret (pos (now / window_ms))) % modulus)

  -- A locked ticket is used as any other, where the QR that was shown for it, with the ticket's own
  -- base that has no colon and its own secret, is scanned within thirty seconds of its display.
  pub use_abused-build_display_qr :
      (base : Text) (shown : ℕ) (t : Ticket) (s : System)
      → HasNoColon base
      → t.qr_code ≡ some base
      → shown ≤ s.now + window_ms
      → s.now ≤ shown + window_ms
      → use_abused hmac (build_display_qr hmac base t.qr_secret shown) t s ≡ handle_use t s
  unfolding use_abused build_display_qr
  use_abused-build_display_qr base shown t s h q l u =
      let code = generate_code hmac t.qr_secret shown in
      ground (
        arith,
        before_colon-append base code h,
        after_colon-append base code h,
        generate_code-before_colon t.qr_secret shown,
        generate_code-is_six_digits t.qr_secret shown,
        verify_code-generate_code hmac t.qr_secret shown s.now 1,
        text_eq_iff base base,
      )
