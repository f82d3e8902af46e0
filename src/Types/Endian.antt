-- ===== src/Types/Endian.antt =====
-- The byte swaps, on a word given by its bytes.
use tiny_base.Base.{ℕ, ◌+◌, ◌*◌, ◌/◌, ◌%◌, ◌^◌, ◌<◌, ◌≡◌, ◌∙◌, arith}
use tiny_base.Base.Bits.{bit_and-field, bit_or-field_low}
use tiny_base.Types.{flip_endian16, flip_endian16x2, flip_endian32}

pub flip_endian16_lem :
    (a b : ℕ) → a < 256 → b < 256 → flip_endian16 (a + b * 2 ^ 8) ≡ b + a * 2 ^ 8
unfolding flip_endian16
flip_endian16_lem a b ha hb =
    let x : ℕ = a + b * 2 ^ 8 in
    let f0 : x / 2 ^ 8 / 2 ^ 0 % 2 ^ 8 * 2 ^ 0 ≡ b = omega arith in
    let f1 : x * 2 ^ 8 / 2 ^ 8 % 2 ^ 8 * 2 ^ 8 ≡ a * 2 ^ 8 = omega arith in
    rw (bit_and-field 8 0 (x / 2 ^ 8), bit_and-field 8 8 (x * 2 ^ 8), f0, f1)
      (bit_or-field_low 8 a b (omega arith) ∙ omega arith)

-- FlipEndian16x2 swaps the bytes of each half.
pub flip_endian16x2_lem :
    (a b c d : ℕ)
    → a < 256
    → b < 256
    → c < 256
    → d < 256
    → flip_endian16x2 (a + b * 2 ^ 8 + c * 2 ^ 16 + d * 2 ^ 24)
      ≡ b + a * 2 ^ 8 + d * 2 ^ 16 + c * 2 ^ 24
unfolding flip_endian16x2
flip_endian16x2_lem a b c d ha hb hc hd =
    let x : ℕ = a + b * 2 ^ 8 + c * 2 ^ 16 + d * 2 ^ 24 in
    let lo : x % 2 ^ 16 ≡ a + b * 2 ^ 8 = omega arith in
    let hi : x / 2 ^ 16 % 2 ^ 16 ≡ c + d * 2 ^ 8 = omega arith in
    rw
      (
        lo,
        hi,
        flip_endian16_lem a b ha hb,
        flip_endian16_lem c d hc hd,
        bit_or-field_low 16 (d + c * 2 ^ 8) (b + a * 2 ^ 8) (omega arith),
      )
      (omega arith)

pub flip_endian32_lem :
    (a b c d : ℕ)
    → a < 256
    → b < 256
    → c < 256
    → d < 256
    → flip_endian32 (a + b * 2 ^ 8 + c * 2 ^ 16 + d * 2 ^ 24)
      ≡ d + c * 2 ^ 8 + b * 2 ^ 16 + a * 2 ^ 24
unfolding flip_endian32
flip_endian32_lem a b c d ha hb hc hd =
    let x : ℕ = a + b * 2 ^ 8 + c * 2 ^ 16 + d * 2 ^ 24 in
    let f0 : x / 2 ^ 24 / 2 ^ 0 % 2 ^ 8 * 2 ^ 0 ≡ d = omega arith in
    let f1 : x / 2 ^ 8 / 2 ^ 8 % 2 ^ 8 * 2 ^ 8 ≡ c * 2 ^ 8 = omega arith in
    let f2 : x * 2 ^ 8 % 2 ^ 32 / 2 ^ 16 % 2 ^ 8 * 2 ^ 16 ≡ b * 2 ^ 16 = omega arith in
    let f3 : x * 2 ^ 24 % 2 ^ 32 / 2 ^ 24 % 2 ^ 8 * 2 ^ 24 ≡ a * 2 ^ 24 = omega arith in
    rw
      (
        bit_and-field 8 0 (x / 2 ^ 24),
        bit_and-field 8 8 (x / 2 ^ 8),
        bit_and-field 8 16 (x * 2 ^ 8 % 2 ^ 32),
        bit_and-field 8 24 (x * 2 ^ 24 % 2 ^ 32),
        f0,
        f1,
        f2,
        f3,
        bit_or-field_low 8 c d (omega arith),
        bit_or-field_low 16 b (c * 2 ^ 8 + d) (omega arith),
        bit_or-field_low 24 a (b * 2 ^ 16 + (c * 2 ^ 8 + d)) (omega arith),
      )
      (omega arith)
