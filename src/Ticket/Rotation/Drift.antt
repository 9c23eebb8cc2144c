-- ===== src/Ticket/Rotation/Drift.antt =====
-- The codes of RotationQRCode.helper.js: when a displayed code is accepted, and what an accepted
-- code is.
use metro_backend.Prelude.{
  ℕ, zero, suc, ◌+◌, ◌*◌, ◌/◌, ◌≤◌, ◌<◌, ◌≡◌, refl, Bool, true, false, ◌||◌, String, List, Text, ℤ,
  pos, sub_ℕ, text_eq, text_eq_iff, arith, ap, sym, ◌∙◌, Bool-cases, inl, inr,
}
use metro_backend.Ticket.Rotation.{
  window_ms, six_digits, code_of, generate_code, any_window, verify_code, pad_start,
}

sub_ℕ-add : (a b : ℕ) → sub_ℕ (a + b) b ≡ pos a
sub_ℕ-add a b = ground arith

rest_holds : {a b : Bool} → a ≡ false → a || b ≡ true → b ≡ true
rest_holds e h = ground arith

module _ (hmac : String → ℤ → List ℕ) where
  code_of-pad_start :
      (secret : String) (v : ℤ) → pad_start (code_of hmac secret v) ≡ code_of hmac secret v
  unfolding code_of six_digits
  code_of-pad_start secret v = refl

  any_window-hit :
      (secret : String) (code : Text) (w drift i left v : ℕ)
      → w + i ≤ v
      → v < w + i + left
      → text_eq (code_of hmac secret (sub_ℕ v drift)) (pad_start code) ≡ true
      → any_window hmac secret code w drift i left ≡ true
  unfolding any_window
  any_window-hit secret code w drift i zero v l h e = ground arith
  any_window-hit secret code w drift i (suc left) v l h e =
      ground (arith, any_window-hit secret code w drift (i + 1) left v)

  any_window-code :
      (secret : String) (code : Text) (w drift i left : ℕ)
      → any_window hmac secret code w drift i left ≡ true
      → (v : ℕ) × ((w + i ≤ v)
          × ((v < w + i + left) × (code_of hmac secret (sub_ℕ v drift) ≡ pad_start code)))
  unfolding any_window
  any_window-code secret code w drift i zero h = cc
  any_window-code secret code w drift i (suc left) h =
      elim (Bool-cases (text_eq (code_of hmac secret (sub_ℕ (w + i) drift)) (pad_start code))) [
        | inl e ↦ (
          w + i,
          (
            omega arith,
            (
              omega arith,
              (text_eq_iff (code_of hmac secret (sub_ℕ (w + i) drift)) (pad_start code)).0 e,
            ),
          ),
        )
        | inr e ↦
            let (v, (l, (u, same))) =
              any_window-code secret code w drift (i + 1) left (rest_holds e h) in
            (v, (omega arith, (omega arith, same)))
      ]

  -- A code shown at one time is accepted at another, where the two lie within `drift` windows of
  -- thirty seconds of each other.
  pub verify_code-generate_code :
      (secret : String) (shown now drift : ℕ)
      → shown ≤ now + drift * window_ms
      → now ≤ shown + drift * window_ms
      → verify_code hmac secret (generate_code hmac secret shown) drift now ≡ true
  unfolding verify_code generate_code
  verify_code-generate_code secret shown now drift h k =
      any_window-hit secret (code_of hmac secret (pos (shown / window_ms))) (now / window_ms) drift
        0 (drift + drift + 1) (shown / window_ms + drift) (omega arith) (omega arith)
        ((text_eq_iff (code_of hmac secret (sub_ℕ (shown / window_ms + drift) drift))
            (pad_start (code_of hmac secret (pos (shown / window_ms))))).1
          (ap (code_of hmac secret) (sub_ℕ-add (shown / window_ms) drift)
            ∙ sym (code_of-pad_start secret (pos (shown / window_ms)))))

  -- A code that is accepted is, filled up with zeros, the code of a window that lies at most `drift`
  -- windows before or after the window of now: the window is v less the drift, for the v named.
  verify_code-code :
      (secret : String) (code : Text) (drift now : ℕ)
      → verify_code hmac secret code drift now ≡ true
      → (v : ℕ) × ((now / window_ms ≤ v)
          × ((v ≤ now / window_ms + drift + drift)
              × (code_of hmac secret (sub_ℕ v drift) ≡ pad_start code)))
  unfolding verify_code
  verify_code-code secret code drift now h =
      let (v, (l, (u, same))) =
        any_window-code secret code (now / window_ms) drift 0 (drift + drift + 1) h in
      (v, (omega arith, (omega arith, same)))
