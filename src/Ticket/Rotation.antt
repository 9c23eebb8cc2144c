-- ===== src/Ticket/Rotation.antt =====
-- ticket-service/src/services/ticket/helpers/RotationQRCode.helper.js. The keyed hash of Node's
-- `crypto` is a parameter: from a secret and a window's number, the bytes of the digest.
pub mod Drift
pub mod Scan
use metro_backend.Prelude.{
  ℕ, zero, suc, ◌+◌, ◌-◌, ◌*◌, ◌/◌, ◌%◌, ◌^◌, ◌≤◌, ◌<◌, ◌≡◌, refl, Bool, true, false, ◌||◌, String,
  List, [], ◌∷◌, ◌++◌, Text, ℤ, pos, sub_ℕ, length, get_or, replicate, text_eq, arith,
}

abbrev pub window_ms : ℕ
window_ms = 30 * 1000

abbrev pub modulus : ℕ
modulus = 1_000_000

-- The offset and the four bytes of a dynamic truncation; `& 0x0f`, `& 0x7f` and `& 0xff` are
-- remainders, and the shifted bytes have no bit in common.
unfoldable pub truncated : List ℕ → ℕ
truncated digest =
    let offset = get_or digest (length digest - 1) 0 % 16 in
    get_or digest offset 0 % 128 * 2 ^ 24
    + get_or digest (offset + 1) 0 % 256 * 2 ^ 16
    + get_or digest (offset + 2) 0 % 256 * 2 ^ 8
    + get_or digest (offset + 3) 0 % 256

-- `n.toString().padStart(6, '0')` for a number below a million.
unfoldable pub six_digits : ℕ → Text
six_digits n =
    (b'0' + n / 100_000 % 10)
    ∷ (b'0' + n / 10_000 % 10)
    ∷ (b'0' + n / 1000 % 10)
    ∷ (b'0' + n / 100 % 10)
    ∷ (b'0' + n / 10 % 10)
    ∷ (b'0' + n % 10)
    ∷ []

-- `code.padStart(6, '0')`.
abbrev pub pad_start : Text → Text
pad_start code = replicate (6 - length code) b'0' ++ code

module _ (hmac : String → ℤ → List ℕ) where
  -- The code of a window.
  unfoldable pub code_of : String → ℤ → Text
  unfolding truncated six_digits
  code_of secret window = six_digits (truncated (hmac secret window) % modulus)

  unfoldable pub generate_code : String → ℕ → Text
  unfolding code_of
  generate_code secret now = code_of secret (pos (now / window_ms))

  -- The windows from `w + i - drift` on, `left` of them.
  any_window : String → Text → ℕ → ℕ → ℕ → ℕ → Bool
  unfolding code_of
  any_window secret code w drift i zero = false
  any_window secret code w drift i (suc left) =
      text_eq (code_of secret (sub_ℕ (w + i) drift)) (pad_start code)
      || any_window secret code w drift (i + 1) left

  unfoldable pub verify_code : String → Text → ℕ → ℕ → Bool
  unfolding any_window
  verify_code secret code drift now =
      any_window secret code (now / window_ms) drift 0 (drift + drift + 1)

  unfoldable pub build_display_qr : Text → String → ℕ → Text
  unfolding generate_code
  build_display_qr base secret now = base ++ b':' ∷ generate_code secret now
