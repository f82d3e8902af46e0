-- ===== src/Encoding/Utf8/Laws.antt =====
-- The UTF-8 conversions as arithmetic, and that decoding undoes encoding.
use tiny_base.Base.{
  ℕ, ◌+◌, ◌*◌, ◌/◌, ◌%◌, ◌^◌, ◌≤◌, ◌<◌, ◌≡◌, ◌∙◌, arith, bit_and, bit_or, le→ltb, lt→ltb,
}
use native.Mathlib.Decide.{dec_lt}
use tiny_base.Base.Bits.{bit_or-disjoint, bit_and-field, bit_or-field, bit_or-field_low}
use tiny_base.Encoding.Utf8.{utf8_to_unicode, unicode_to_utf8}

-- A continuation byte, `10xxxxxx`.
abbrev pub tail_byte : ℕ → ℕ
tail_byte x = 0x80 + x % 64

-- The bytes of a character by the UTF-8 table, first byte lowest.
abbrev pub packed2 : ℕ → ℕ
packed2 c = 0xc0 + c / 64 + tail_byte c * 2 ^ 8

abbrev pub packed3 : ℕ → ℕ
packed3 c = 0xe0 + c / 4096 + tail_byte (c / 64) * 2 ^ 8 + tail_byte c * 2 ^ 16

abbrev pub packed4 : ℕ → ℕ
packed4 c =
    0xf0
    + c / 2 ^ 18
    + tail_byte (c / 4096) * 2 ^ 8
    + tail_byte (c / 64) * 2 ^ 16
    + tail_byte c * 2 ^ 24

tail_or : (x : ℕ) → bit_or (bit_and x 0x3f) 0x80 ≡ tail_byte x
tail_or x =
    rw (bit_and-field 6 0 x)
      (bit_or-field_low 6 2 (x / 2 ^ 0 % 2 ^ 6 * 2 ^ 0) (omega arith) ∙ omega arith)

pub unicode_to_utf8_one : (c : ℕ) → c < 0x80 → unicode_to_utf8 c ≡ c
unfolding unicode_to_utf8
unicode_to_utf8_one c h = rw (lt→ltb c 0x80 h)

pub unicode_to_utf8_two : (c : ℕ) → 0x80 ≤ c → c < 0x800 → unicode_to_utf8 c ≡ packed2 c
unfolding unicode_to_utf8
unicode_to_utf8_two c lo hi =
    let e1 = le→ltb c 0x80 lo in
    let e2 = lt→ltb c 0x800 hi in
    let head : bit_or (bit_and (c / 2 ^ 6) 0x1f) 0xc0 ≡ 0xc0 + c / 64 =
      rw (bit_and-field 5 0 (c / 2 ^ 6))
        (bit_or-field_low 5 6 (c / 2 ^ 6 / 2 ^ 0 % 2 ^ 5 * 2 ^ 0) (omega arith) ∙ omega arith) in
    rw (e1, e2, tail_or c, head) (omega arith)

pub unicode_to_utf8_three : (c : ℕ) → 0x800 ≤ c → c < 0x10000 → unicode_to_utf8 c ≡ packed3 c
unfolding unicode_to_utf8
unicode_to_utf8_three c lo hi =
    let e1 = le→ltb c 0x80 (omega arith) in
    let e2 = le→ltb c 0x800 lo in
    let e3 = lt→ltb c 0x10000 hi in
    let head : bit_or (bit_and (c / 2 ^ 12) 0xf) 0xe0 ≡ 0xe0 + c / 4096 =
      rw (bit_and-field 4 0 (c / 2 ^ 12))
        (bit_or-field_low 4 14 (c / 2 ^ 12 / 2 ^ 0 % 2 ^ 4 * 2 ^ 0) (omega arith) ∙ omega arith) in
    rw (e1, e2, e3, tail_or c, tail_or (c / 2 ^ 6), head) (omega arith)

pub unicode_to_utf8_four : (c : ℕ) → 0x10000 ≤ c → c < 2 ^ 21 → unicode_to_utf8 c ≡ packed4 c
unfolding unicode_to_utf8
unicode_to_utf8_four c lo hi =
    let e1 = le→ltb c 0x80 (omega arith) in
    let e2 = le→ltb c 0x800 (omega arith) in
    let e3 = le→ltb c 0x10000 lo in
    let head : bit_or (bit_and (c / 2 ^ 18) 0x7) 0xf0 ≡ 0xf0 + c / 2 ^ 18 =
      rw (bit_and-field 3 0 (c / 2 ^ 18))
        (bit_or-field_low 3 30 (c / 2 ^ 18 / 2 ^ 0 % 2 ^ 3 * 2 ^ 0) (omega arith) ∙ omega arith) in
    rw (e1, e2, e3, tail_or c, tail_or (c / 2 ^ 6), tail_or (c / 2 ^ 12), head) (omega arith)

-- What the decoder makes of a lead byte `b0` and tail bytes `b1`, `b2`, `b3`.
decode_two :
    (b0 b1 : ℕ)
    → 0x80 ≤ b0
    → b0 < 256
    → b1 < 0xc0
    → 0 < b1
    → utf8_to_unicode (b0 + b1 * 2 ^ 8) ≡ b0 % 32 * 64 + b1 % 64
unfolding utf8_to_unicode
decode_two b0 b1 lo h0 h1 pos =
    let x : ℕ = b0 + b1 * 2 ^ 8 in
    let e1 = le→ltb x 0x80 (omega arith) in
    let e2 = lt→ltb x 0xFFFF (omega arith) in
    rw (e1, e2, bit_and-field 5 0 x, bit_and-field 6 8 x)
      (bit_or-field 6 (x / 2 ^ 0 % 2 ^ 5 * 2 ^ 0) (x / 2 ^ 8 % 2 ^ 6 * 2 ^ 8 / 2 ^ 8) (omega arith)
        ∙ omega arith)

decode_three :
    (b0 b1 b2 : ℕ)
    → b0 < 256
    → b1 < 256
    → b2 < 0xc0
    → 0 < b2
    → utf8_to_unicode (b0 + b1 * 2 ^ 8 + b2 * 2 ^ 16) ≡ b0 % 16 * 4096 + b1 % 64 * 64 + b2 % 64
unfolding utf8_to_unicode
decode_three b0 b1 b2 h0 h1 h2 pos =
    let x : ℕ = b0 + b1 * 2 ^ 8 + b2 * 2 ^ 16 in
    let e1 = le→ltb x 0x80 (omega arith) in
    let e2 = le→ltb x 0xFFFF (omega arith) in
    let e3 = lt→ltb x 0xFFFFFF (omega arith) in
    let f0 : x / 2 ^ 0 % 2 ^ 4 * 2 ^ 0 * 2 ^ 12 ≡ b0 % 16 * 2 ^ 12 = omega arith in
    let f1 : x / 2 ^ 8 % 2 ^ 6 * 2 ^ 8 / 2 ^ 2 ≡ b1 % 64 * 2 ^ 6 = omega arith in
    let f2 : x / 2 ^ 16 % 2 ^ 6 * 2 ^ 16 / 2 ^ 16 ≡ b2 % 64 = omega arith in
    rw
      (
        e1,
        e2,
        e3,
        bit_and-field 4 0 x,
        bit_and-field 6 8 x,
        bit_and-field 6 16 x,
        f0,
        f1,
        f2,
        bit_or-disjoint 12 (b0 % 16 * 2 ^ 12) (b1 % 64 * 2 ^ 6) (omega arith) (omega arith),
      )
      (bit_or-disjoint 6 (b0 % 16 * 2 ^ 12 + b1 % 64 * 2 ^ 6) (b2 % 64) (omega arith) (omega arith))

decode_four :
    (b0 b1 b2 b3 : ℕ)
    → b0 < 256
    → b1 < 256
    → b2 < 256
    → b3 < 256
    → 0 < b3
    → utf8_to_unicode (b0 + b1 * 2 ^ 8 + b2 * 2 ^ 16 + b3 * 2 ^ 24)
      ≡ b0 % 8 * 2 ^ 18 + b1 % 64 * 4096 + b2 % 64 * 64 + b3 % 64
unfolding utf8_to_unicode
decode_four b0 b1 b2 b3 h0 h1 h2 h3 pos =
    let x : ℕ = b0 + b1 * 2 ^ 8 + b2 * 2 ^ 16 + b3 * 2 ^ 24 in
    let e1 = le→ltb x 0x80 (omega arith) in
    let e2 = le→ltb x 0xFFFF (omega arith) in
    let e3 = le→ltb x 0xFFFFFF (omega arith) in
    let f0 : x / 2 ^ 0 % 2 ^ 3 * 2 ^ 0 * 2 ^ 18 ≡ b0 % 8 * 2 ^ 18 = omega arith in
    let f1 : x / 2 ^ 8 % 2 ^ 6 * 2 ^ 8 * 2 ^ 4 ≡ b1 % 64 * 2 ^ 12 = omega arith in
    let f2 : x / 2 ^ 16 % 2 ^ 6 * 2 ^ 16 / 2 ^ 10 ≡ b2 % 64 * 2 ^ 6 = omega arith in
    let f3 : x / 2 ^ 24 % 2 ^ 6 * 2 ^ 24 / 2 ^ 24 ≡ b3 % 64 = omega arith in
    let top : ℕ = b0 % 8 * 2 ^ 18 + b1 % 64 * 2 ^ 12 in
    rw
      (
        e1,
        e2,
        e3,
        bit_and-field 3 0 x,
        bit_and-field 6 8 x,
        bit_and-field 6 16 x,
        bit_and-field 6 24 x,
        f0,
        f1,
        f2,
        f3,
        bit_or-disjoint 18 (b0 % 8 * 2 ^ 18) (b1 % 64 * 2 ^ 12) (omega arith) (omega arith),
        bit_or-disjoint 12 top (b2 % 64 * 2 ^ 6) (omega arith) (omega arith),
      )
      (bit_or-disjoint 6 (top + b2 % 64 * 2 ^ 6) (b3 % 64) (omega arith) (omega arith))

-- `_UTF8ToUnicode` undoes `_UnicodeToUTF8` on every number of at most 21 bits, which all code points
-- are.
pub utf8_to_unicode-unicode_to_utf8 : (c : ℕ) → c < 2 ^ 21 → utf8_to_unicode (unicode_to_utf8 c) ≡ c
utf8_to_unicode-unicode_to_utf8 c h = elim (dec_lt c 0x80) [
  | yes one ↦ unfold utf8_to_unicode in rw (unicode_to_utf8_one c one, lt→ltb c 0x80 one)
  | no n1 ↦ elim (dec_lt c 0x800) [
    | yes two ↦ rw (unicode_to_utf8_two c (omega arith) two) (
        decode_two (0xc0 + c / 64) (tail_byte c) (omega arith) (omega arith) (omega arith)
          (omega arith)
        ∙ omega arith)
    | no n2 ↦ elim (dec_lt c 0x10000) [
      | yes three ↦ rw (unicode_to_utf8_three c (omega arith) three) (
          decode_three (0xe0 + c / 4096) (tail_byte (c / 64)) (tail_byte c) (omega arith)
            (omega arith) (omega arith) (omega arith)
          ∙ omega arith)
      | no n3 ↦ rw (unicode_to_utf8_four c (omega arith) h) (
          decode_four (0xf0 + c / 2 ^ 18) (tail_byte (c / 4096)) (tail_byte (c / 64)) (tail_byte c)
            (omega arith) (omega arith) (omega arith) (omega arith) (omega arith)
          ∙ omega arith)
    ]
  ]
]

pub utf8_to_unicode_low : (x : ℕ) → x < 0x80 → utf8_to_unicode x ≡ x
unfolding utf8_to_unicode
utf8_to_unicode_low x low = rw (lt→ltb x 0x80 low) (omega arith)

pub unicode_to_utf8_low : (x : ℕ) → x < 0x80 → unicode_to_utf8 x ≡ x
unfolding unicode_to_utf8
unicode_to_utf8_low x low = rw (lt→ltb x 0x80 low) (omega arith)
