-- ===== src/Encoding/Char/ReadUtf16.antt =====
-- A character that memory holds in UTF-16, in either byte order, is read as its mb_char.
use native.Mathlib.Decide.{dec_lt}
use tiny_base.Base.{ℕ, ◌+◌, ◌*◌, ◌/◌, ◌%◌, ◌^◌, ◌≤◌, ◌<◌, ◌≡◌, ◌∙◌, sym, arith, lt→ltb, le→ltb}
use tiny_base.Mem.{Mem}
use tiny_base.Types.{flip_endian16x2}
use tiny_base.Types.Endian.{flip_endian16x2_lem}
use tiny_base.Encoding.{utf16le, utf16be}
use tiny_base.Encoding.Utf16.{
  unicode_to_utf16, unicode_to_utf16_one, unicode_to_utf16_pair, lead_half, tail_half,
}
use tiny_base.Encoding.Char.{
  get_next_char_size, get_multibyte_char_size, utf16le_char_size, utf16be_char_size,
  adjust_endianness, encode_char,
}
use tiny_base.Encoding.Char.Spec.{encoded, utf16_bytes, little16, big16, IsScalar}
use tiny_base.Encoding.Char.Reads.{ReadsAs, reads}
use tiny_base.Encoding.Char.Bytes.{Holds, read_two, read_four}

swap_two : (a b : ℕ) → a < 256 → b < 256 → flip_endian16x2 (a + b * 2 ^ 8) ≡ b + a * 2 ^ 8
swap_two a b ha hb =
    let e : a + b * 2 ^ 8 ≡ a + b * 2 ^ 8 + 0 * 2 ^ 16 + 0 * 2 ^ 24 = omega arith in
    rw e (flip_endian16x2_lem a b 0 0 ha hb (omega arith) (omega arith) ∙ omega arith)

-- A code point outside the surrogates is one unit, or a pair whose first half tells its size.
module _ (m : Mem) (p c : ℕ) (s : IsScalar c) where
  one_unit : c < 0x10000 → (unicode_to_utf16 c ≡ c) × (get_multibyte_char_size c utf16le ≡ 2)
  unfolding get_multibyte_char_size
  one_unit one = (unicode_to_utf16_one c one, ground arith)

  two_units : 0x10000 ≤ c → get_multibyte_char_size (lead_half c + tail_half c * 2 ^ 16) utf16le ≡ 4
  unfolding get_multibyte_char_size
  two_units two = ground arith

  pub utf16le-ReadsAs : Holds m p (utf16_bytes little16 c) → ReadsAs m p utf16le c
  unfolding get_next_char_size encode_char encoded adjust_endianness utf16le_char_size
  utf16le-ReadsAs h = elim (dec_lt c 0x10000) [
    | yes one ↦
        let t = lt→ltb c 0x10000 one in
        let h' = rw t at h in
        let (same, size) = one_unit one in
        let two : get_next_char_size m p utf16le ≡ 2 = rw h'.1.0 (ground arith) in
        record {
          next_size = rw t two;
          next_char =
              reads m p utf16le c 2 c two
                (read_two m p (c % 256) (c / 256) h' (omega arith) ∙ omega arith) (sym same);
          char_size = rw (t, same) size;
        }
    | no pair ↦
        let t = le→ltb c 0x10000 (omega arith) in
        let h' = rw t at h in
        let a = lead_half c in
        let b = tail_half c in
        let four : get_next_char_size m p utf16le ≡ 4 = rw h'.1.0 (ground arith) in
        let e = unicode_to_utf16_pair c (omega arith) s.0 in
        record {
          next_size = rw t four;
          next_char =
              reads m p utf16le c 4 (a + b * 2 ^ 16) four
                (read_four m p (a % 256) (a / 256) (b % 256) (b / 256) h' (omega arith)
                    (omega arith) (omega arith)
                  ∙ omega arith)
                (sym e);
          char_size = rw (t, e) (two_units (omega arith));
        }
  ]

  pub utf16be-ReadsAs : Holds m p (utf16_bytes big16 c) → ReadsAs m p utf16be c
  unfolding get_next_char_size encode_char encoded adjust_endianness utf16be_char_size
      get_multibyte_char_size
  utf16be-ReadsAs h = elim (dec_lt c 0x10000) [
    | yes one ↦
        let t = lt→ltb c 0x10000 one in
        let h' = rw t at h in
        let (same, size) = one_unit one in
        let two : get_next_char_size m p utf16be ≡ 2 = rw h'.0 (ground arith) in
        record {
          next_size = rw t two;
          next_char =
              reads m p utf16be c 2 (c / 256 + c % 256 * 2 ^ 8) two
                (read_two m p (c / 256) (c % 256) h' (omega arith))
                (swap_two (c / 256) (c % 256) (omega arith) (omega arith) ∙ omega (arith, same));
          char_size = rw (t, same) size;
        }
    | no pair ↦
        let t = le→ltb c 0x10000 (omega arith) in
        let h' = rw t at h in
        let a = lead_half c in
        let b = tail_half c in
        let four : get_next_char_size m p utf16be ≡ 4 = rw h'.0 (ground arith) in
        let e = unicode_to_utf16_pair c (omega arith) s.0 in
        record {
          next_size = rw t four;
          next_char =
              reads m p utf16be c 4
                (a / 256 + a % 256 * 2 ^ 8 + b / 256 * 2 ^ 16 + b % 256 * 2 ^ 24) four
                (read_four m p (a / 256) (a % 256) (b / 256) (b % 256) h' (omega arith)
                  (omega arith) (omega arith))
                (flip_endian16x2_lem (a / 256) (a % 256) (b / 256) (b % 256) (omega arith)
                    (omega arith) (omega arith) (omega arith)
                  ∙ omega (arith, e));
          char_size = rw (t, e) (two_units (omega arith));
        }
  ]
