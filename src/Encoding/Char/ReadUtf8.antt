-- ===== src/Encoding/Char/ReadUtf8.antt =====
-- A character that memory holds in UTF-8 is read as its mb_char, with its size.
use native.Mathlib.Decide.{dec_lt}
use tiny_base.Base.{ℕ, ◌+◌, ◌/◌, ◌^◌, ◌≤◌, ◌<◌, ◌≡◌, sym, arith, [], ◌∷◌, lt→ltb, le→ltb}
use tiny_base.Mem.{Mem}
use tiny_base.Encoding.{utf8}
use tiny_base.Encoding.Utf8.{unicode_to_utf8}
use tiny_base.Encoding.Utf8.Laws.{
  tail_byte, packed2, packed3, packed4, unicode_to_utf8_one, unicode_to_utf8_two,
  unicode_to_utf8_three, unicode_to_utf8_four,
}
use tiny_base.Encoding.Char.{
  get_next_char_size, get_multibyte_char_size, utf8_char_size, adjust_endianness, read_bytes,
  encode_char,
}
use tiny_base.Encoding.Char.Spec.{encoded, utf8_bytes, IsScalar}
use tiny_base.Encoding.Char.Reads.{ReadsAs, reads}
use tiny_base.Encoding.Char.Bytes.{Holds, read_two, read_three, read_four}

module _ (m : Mem) (p c : ℕ) where
  utf8_two :
      0x80 ≤ c
      → c < 0x800
      → Holds m p ((0xc0 + c / 64) ∷ tail_byte c ∷ [])
      → (utf8_char_size m p ≡ 2)
        × (read_bytes m p 2 ≡ packed2 c)
        × (get_multibyte_char_size (packed2 c) utf8 ≡ 2)
  unfolding utf8_char_size get_multibyte_char_size
  utf8_two lo hi h = (
    rw h.0 (ground arith),
    read_two m p (0xc0 + c / 64) (tail_byte c) h (omega arith),
    ground arith,
  )

  utf8_three :
      0x800 ≤ c
      → c < 0x10000
      → Holds m p ((0xe0 + c / 4096) ∷ tail_byte (c / 64) ∷ tail_byte c ∷ [])
      → (utf8_char_size m p ≡ 3)
        × (read_bytes m p 3 ≡ packed3 c)
        × (get_multibyte_char_size (packed3 c) utf8 ≡ 3)
  unfolding utf8_char_size get_multibyte_char_size
  utf8_three lo hi h = (
    rw h.0 (ground arith),
    read_three m p (0xe0 + c / 4096) (tail_byte (c / 64)) (tail_byte c) h (omega arith)
        (omega arith),
    ground arith,
  )

  utf8_four :
      0x10000 ≤ c
      → c < 0x110000
      → Holds m p
          ((0xf0 + c / 2 ^ 18) ∷ tail_byte (c / 4096) ∷ tail_byte (c / 64) ∷ tail_byte c ∷ [])
      → (utf8_char_size m p ≡ 4)
        × (read_bytes m p 4 ≡ packed4 c)
        × (get_multibyte_char_size (packed4 c) utf8 ≡ 4)
  unfolding utf8_char_size get_multibyte_char_size
  utf8_four lo hi h = (
    rw h.0 (ground arith),
    read_four m p (0xf0 + c / 2 ^ 18) (tail_byte (c / 4096)) (tail_byte (c / 64)) (tail_byte c) h
        (omega arith) (omega arith) (omega arith),
    ground arith,
  )

  pub utf8-ReadsAs : IsScalar c → Holds m p (utf8_bytes c) → ReadsAs m p utf8 c
  unfolding get_next_char_size encode_char encoded adjust_endianness
  utf8-ReadsAs s h = elim (dec_lt c 0x80) [
    | yes one ↦
        let t1 = lt→ltb c 0x80 one in
        let (e, _) = rw t1 at h in
        let same : unicode_to_utf8 c ≡ c = unicode_to_utf8_one c one in
        record {
          next_size = rw t1 (unfold utf8_char_size in rw e (ground arith));
          next_char =
              reads m p utf8 c 1 c (unfold utf8_char_size in rw e (ground arith))
                (unfold read_bytes in e) (sym same);
          char_size = rw (t1, same) (unfold get_multibyte_char_size in ground arith);
        }
    | no n1 ↦ elim (dec_lt c 0x800) [
      | yes two ↦
          let t1 = le→ltb c 0x80 (omega arith) in
          let t2 = lt→ltb c 0x800 two in
          let (e1, e2, e3) = utf8_two (omega arith) two (rw (t1, t2) at h) in
          let e4 = unicode_to_utf8_two c (omega arith) two in
          record {
            next_size = rw (t1, t2) e1;
            next_char = reads m p utf8 c 2 (packed2 c) e1 e2 (sym e4);
            char_size = rw (t1, t2, e4) e3;
          }
      | no n2 ↦ elim (dec_lt c 0x10000) [
        | yes three ↦
            let t1 = le→ltb c 0x80 (omega arith) in
            let t2 = le→ltb c 0x800 (omega arith) in
            let t3 = lt→ltb c 0x10000 three in
            let (e1, e2, e3) = utf8_three (omega arith) three (rw (t1, t2, t3) at h) in
            let e4 = unicode_to_utf8_three c (omega arith) three in
            record {
              next_size = rw (t1, t2, t3) e1;
              next_char = reads m p utf8 c 3 (packed3 c) e1 e2 (sym e4);
              char_size = rw (t1, t2, t3, e4) e3;
            }
        | no n3 ↦
            let t1 = le→ltb c 0x80 (omega arith) in
            let t2 = le→ltb c 0x800 (omega arith) in
            let t3 = le→ltb c 0x10000 (omega arith) in
            let (e1, e2, e3) = utf8_four (omega arith) s.0 (rw (t1, t2, t3) at h) in
            let e4 = unicode_to_utf8_four c (omega arith) (omega arith) in
            record {
              next_size = rw (t1, t2, t3) e1;
              next_char = reads m p utf8 c 4 (packed4 c) e1 e2 (sym e4);
              char_size = rw (t1, t2, t3, e4) e3;
            }
      ]
    ]
  ]
