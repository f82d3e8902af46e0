-- ===== src/Encoding/Utf16.antt =====
-- `_UTF16ToUnicode` and `_UnicodeToUTF16`. A surrogate pair has its first half in the low 16 bits.
use tiny_base.Base.{
  ℕ, ◌+◌, ◌-◌, ◌*◌, ◌/◌, ◌%◌, ◌^◌, ◌≤◌, ◌<◌, ◌≡◌, arith, bit_and, ltb, if◌then◌else◌, lt→ltb,
  le→ltb,
}
use native.Mathlib.Decide.{dec_lt}
use tiny_base.Base.Bits.{bit_and-field}
use tiny_base.Base.Word.{u32, sub_u32, ◌<<<◌, ◌>>>◌}

pub utf16_to_unicode : ℕ → ℕ
utf16_to_unicode c =
    if ltb 0xFFFF c
    then (let a = u32 (sub_u32 (bit_and c 0xFFFF) 0xD800 * 0x400) in
        let b = sub_u32 (bit_and (c >>> 16) 0xFFFF) 0xDC00 in u32 (0x10000 + a + b))
    else c

pub unicode_to_utf16 : ℕ → ℕ
unicode_to_utf16 c =
    if ltb 0xFFFF c
    then (let c' = sub_u32 c 0x10000 in
        let a = u32 ((c' >>> 10) + 0xd800) in
        let b = u32 (bit_and c' 0x3ff + 0xdc00) in u32 (u32 (b <<< 16) + a))
    else c

-- The halves of a surrogate pair.
abbrev pub lead_half : ℕ → ℕ
lead_half c = 0xd800 + (c - 0x10000) / 0x400

abbrev pub tail_half : ℕ → ℕ
tail_half c = 0xdc00 + (c - 0x10000) % 0x400

pub unicode_to_utf16_one : (c : ℕ) → c < 0x10000 → unicode_to_utf16 c ≡ c
unfolding unicode_to_utf16
unicode_to_utf16_one c h = rw (le→ltb 0xFFFF c (omega arith))

pub unicode_to_utf16_pair :
    (c : ℕ) → 0x10000 ≤ c → c < 0x110000 → unicode_to_utf16 c ≡ lead_half c + tail_half c * 2 ^ 16
unfolding unicode_to_utf16
unicode_to_utf16_pair c lo hi =
    let e = lt→ltb 0xFFFF c lo in rw (e, bit_and-field 10 0 (sub_u32 c 0x10000)) (omega arith)

-- `_UTF16ToUnicode` undoes `_UnicodeToUTF16` on every code point.
pub utf16_to_unicode-unicode_to_utf16 :
    (c : ℕ) → c < 0x110000 → utf16_to_unicode (unicode_to_utf16 c) ≡ c
unfolding utf16_to_unicode
utf16_to_unicode-unicode_to_utf16 c h = elim (dec_lt c 0x10000) [
  | yes one ↦ rw (unicode_to_utf16_one c one, le→ltb 0xFFFF c (omega arith))
  | no two ↦
      let x : ℕ = lead_half c + tail_half c * 2 ^ 16 in
      let e = lt→ltb 0xFFFF x (omega arith) in
      rw
        (
          unicode_to_utf16_pair c (omega arith) h,
          e,
          bit_and-field 16 0 x,
          bit_and-field 16 0 (x / 2 ^ 16),
        )
        (omega arith)
]

pub utf16_to_unicode_low : (x : ℕ) → x < 0x80 → utf16_to_unicode x ≡ x
unfolding utf16_to_unicode
utf16_to_unicode_low x low = rw (le→ltb 0xFFFF x (omega arith)) (omega arith)
