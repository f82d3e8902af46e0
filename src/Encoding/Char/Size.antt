-- ===== src/Encoding/Char/Size.antt =====
-- GetMultibyteCharSize of an encoded character is the number of its bytes.
use native.Mathlib.Decide.{dec_lt}
use tiny_base.Base.{ℕ, ◌≤◌, ◌<◌, ◌≡◌, refl, arith, List, length, length-append, lt→ltb, le→ltb}
use tiny_base.Encoding.{Encoding, ascii, utf8, utf16le, utf16be, utf32le, utf32be}
use tiny_base.Encoding.Utf8.{unicode_to_utf8}
use tiny_base.Encoding.Utf8.Laws.{
  unicode_to_utf8_one, unicode_to_utf8_two, unicode_to_utf8_three, unicode_to_utf8_four,
}
use tiny_base.Encoding.Utf16.{
  unicode_to_utf16, unicode_to_utf16_one, unicode_to_utf16_pair, lead_half, tail_half,
}
use tiny_base.Encoding.Char.{get_multibyte_char_size, encode_char}
use tiny_base.Encoding.Char.Spec.{
  encoded, utf8_bytes, utf16_bytes, little16, big16, CanEncode, IsScalar,
}

module _ (c : ℕ) where
  utf8_size :
      CanEncode utf8 c → get_multibyte_char_size (unicode_to_utf8 c) utf8 ≡ length (utf8_bytes c)
  unfolding get_multibyte_char_size
  utf8_size can = elim (dec_lt c 0x80) [
    | yes one ↦ rw (unicode_to_utf8_one c one) (ground arith)
    | no n1 ↦ elim (dec_lt c 0x800) [
      | yes two ↦ rw (unicode_to_utf8_two c (omega arith) two) (ground arith)
      | no n2 ↦ elim (dec_lt c 0x10000) [
        | yes three ↦ rw (unicode_to_utf8_three c (omega arith) three) (ground arith)
        | no n3 ↦ rw (unicode_to_utf8_four c (omega arith) (omega arith)) (ground arith)
      ]
    ]
  ]

  utf16_size :
      (half : ℕ → List ℕ)
      → ((x : ℕ) → length (half x) ≡ 2)
      → IsScalar c
      → get_multibyte_char_size (unicode_to_utf16 c) utf16le ≡ length (utf16_bytes half c)
  unfolding get_multibyte_char_size
  utf16_size half two can = elim (dec_lt c 0x10000) [
    | yes one ↦ rw (unicode_to_utf16_one c one, lt→ltb c 0x10000 one) (ground (arith, two c))
    | no pair ↦
        rw
          (
            unicode_to_utf16_pair c (omega arith) can.0,
            le→ltb c 0x10000 (omega arith),
            length-append,
          )
          (ground (arith, two (lead_half c), two (tail_half c)))
  ]

pub get_multibyte_char_size-encode_char :
    (enc : Encoding) (c : ℕ)
    → CanEncode enc c
    → get_multibyte_char_size (encode_char c enc) enc ≡ length (encoded enc c)
unfolding get_multibyte_char_size encode_char encoded
get_multibyte_char_size-encode_char ascii c can = ground arith
get_multibyte_char_size-encode_char utf8 c can = utf8_size c can
get_multibyte_char_size-encode_char utf16le c can = utf16_size c little16 (λ x. refl) can
get_multibyte_char_size-encode_char utf16be c can = utf16_size c big16 (λ x. refl) can
get_multibyte_char_size-encode_char utf32le c can = refl
get_multibyte_char_size-encode_char utf32be c can = refl

pub length-encoded-le : (enc : Encoding) (c : ℕ) → length (encoded enc c) ≤ 4
unfolding encoded
length-encoded-le ascii c = omega arith
length-encoded-le utf8 c = ground arith
length-encoded-le utf16le c = ground arith
length-encoded-le utf16be c = ground arith
length-encoded-le utf32le c = omega arith
length-encoded-le utf32be c = omega arith

pub length-encoded_pos : (enc : Encoding) (c : ℕ) → 0 < length (encoded enc c)
unfolding encoded
length-encoded_pos ascii c = omega arith
length-encoded_pos utf8 c = ground arith
length-encoded_pos utf16le c = ground arith
length-encoded_pos utf16be c = ground arith
length-encoded_pos utf32le c = omega arith
length-encoded_pos utf32be c = omega arith
