-- ===== src/Strings/Transcode/Stores.antt =====
-- The stores of a transcoding loop write the bytes of the standard.
use native.Mathlib.Decide.{dec_lt}
use tiny_base.Base.{ℕ, ◌≡◌, refl, ap, arith, length, lt→ltb, le→ltb}
use tiny_base.Mem.{Mem}
use tiny_base.Mem.Write.{write_bytes, AllBytes}
use tiny_base.Encoding.{Encoding, ascii, utf8, utf16le, utf16be, utf32le, utf32be}
use tiny_base.Encoding.Utf8.{unicode_to_utf8}
use tiny_base.Encoding.Utf8.Laws.{
  unicode_to_utf8_one, unicode_to_utf8_two, unicode_to_utf8_three, unicode_to_utf8_four,
}
use tiny_base.Encoding.Utf16.{unicode_to_utf16, unicode_to_utf16_one, unicode_to_utf16_pair}
use tiny_base.Encoding.Char.{get_multibyte_char_size, encode_char}
use tiny_base.Encoding.Char.Size.{get_multibyte_char_size-encode_char}
use tiny_base.Encoding.Char.Spec.{
  encoded, utf8_bytes, utf16_bytes, little16, big16, CanEncode, IsScalar,
}
use tiny_base.Strings.Transcode.{store_plain, store_utf16be, store_utf32be}

pub AllBytes-encoded : (enc : Encoding) (c : ℕ) → CanEncode enc c → AllBytes (encoded enc c)
unfolding encoded
AllBytes-encoded ascii c can = omega arith
AllBytes-encoded utf8 c can = elim (dec_lt c 0x80) [
  | yes one ↦ rw (lt→ltb c 0x80 one) (omega arith)
  | no n1 ↦ elim (dec_lt c 0x800) [
    | yes two ↦ rw (le→ltb c 0x80 (omega arith), lt→ltb c 0x800 two) (omega arith)
    | no n2 ↦ elim (dec_lt c 0x10000) [
      | yes three ↦
          rw (le→ltb c 0x80 (omega arith), le→ltb c 0x800 (omega arith), lt→ltb c 0x10000 three)
            (omega arith)
      | no n3 ↦
          rw
            (
              le→ltb c 0x80 (omega arith),
              le→ltb c 0x800 (omega arith),
              le→ltb c 0x10000 (omega arith),
            )
            (omega arith)
    ]
  ]
]
AllBytes-encoded utf16le c can = elim (dec_lt c 0x10000) [
  | yes one ↦ rw (lt→ltb c 0x10000 one) (omega arith)
  | no pair ↦ rw (le→ltb c 0x10000 (omega arith)) (omega arith)
]
AllBytes-encoded utf16be c can = elim (dec_lt c 0x10000) [
  | yes one ↦ rw (lt→ltb c 0x10000 one) (omega arith)
  | no pair ↦ rw (le→ltb c 0x10000 (omega arith)) (omega arith)
]
AllBytes-encoded utf32le c can = omega arith
AllBytes-encoded utf32be c can = omega arith

-- What a loop needs of its way to store: the size is that of the standard's bytes, and they are
-- what is stored.
pub record Stores (enc : Encoding) (size_of : ℕ → ℕ) (put : Mem → (dst encoded size : ℕ) → Mem)
    : Type 0 where
  pub size : (c : ℕ) → CanEncode enc c → size_of (encode_char c enc) ≡ length (encoded enc c)
  pub stored :
      (m : Mem) (d c : ℕ)
      → CanEncode enc c
      → put m d (encode_char c enc) (length (encoded enc c)) ≡ write_bytes m d (encoded enc c)

module _ (c : ℕ) where
  utf8_stored :
      (m : Mem) (d : ℕ)
      → CanEncode utf8 c
      → store_plain m d (unicode_to_utf8 c) (length (utf8_bytes c)) ≡ write_bytes m d (utf8_bytes c)
  unfolding store_plain
  utf8_stored m d can = elim (dec_lt c 0x80) [
    | yes one ↦
        rw (unicode_to_utf8_one c one, lt→ltb c 0x80 one) (ap (write_bytes m d) (ground arith))
    | no n1 ↦ elim (dec_lt c 0x800) [
      | yes two ↦
          rw
            (
              unicode_to_utf8_two c (omega arith) two,
              le→ltb c 0x80 (omega arith),
              lt→ltb c 0x800 two,
            )
            (ap (write_bytes m d) (ground arith))
      | no n2 ↦ elim (dec_lt c 0x10000) [
        | yes three ↦
            rw
              (
                unicode_to_utf8_three c (omega arith) three,
                le→ltb c 0x80 (omega arith),
                le→ltb c 0x800 (omega arith),
                lt→ltb c 0x10000 three,
              )
              (ap (write_bytes m d) (ground arith))
        | no n3 ↦
            rw
              (
                unicode_to_utf8_four c (omega arith) (omega arith),
                le→ltb c 0x80 (omega arith),
                le→ltb c 0x800 (omega arith),
                le→ltb c 0x10000 (omega arith),
              )
              (ap (write_bytes m d) (ground arith))
      ]
    ]
  ]

-- One unit or a pair, with the order of the bytes in a unit left open.
utf16le_stored :
    (c : ℕ) (m : Mem) (d : ℕ)
    → CanEncode utf16le c
    → store_plain m d (unicode_to_utf16 c) (length (utf16_bytes little16 c))
      ≡ write_bytes m d (utf16_bytes little16 c)
unfolding store_plain
utf16le_stored c m d can = elim (dec_lt c 0x10000) [
  | yes one ↦
      rw (unicode_to_utf16_one c one, lt→ltb c 0x10000 one) (ap (write_bytes m d) (ground arith))
  | no pair ↦
      rw (unicode_to_utf16_pair c (omega arith) can.0, le→ltb c 0x10000 (omega arith))
        (ap (write_bytes m d) (ground arith))
]

utf16be_stored :
    (c : ℕ) (m : Mem) (d : ℕ)
    → CanEncode utf16be c
    → store_utf16be m d (unicode_to_utf16 c) (length (utf16_bytes big16 c))
      ≡ write_bytes m d (utf16_bytes big16 c)
unfolding store_utf16be
utf16be_stored c m d can = elim (dec_lt c 0x10000) [
  | yes one ↦
      rw (unicode_to_utf16_one c one, lt→ltb c 0x10000 one) (ap (write_bytes m d) (ground arith))
  | no pair ↦
      rw (unicode_to_utf16_pair c (omega arith) can.0, le→ltb c 0x10000 (omega arith))
        (ap (write_bytes m d) (ground arith))
]

utf32_stored :
    (m : Mem) (d c : ℕ)
    → IsScalar c
    → (store_plain m d c 4 ≡ write_bytes m d (encoded utf32le c))
      × (store_utf32be m d c 4 ≡ write_bytes m d (encoded utf32be c))
unfolding store_plain store_utf32be encoded
utf32_stored m d c can = (ap (write_bytes m d) (ground arith), ap (write_bytes m d) (ground arith))

-- The loop that Transcode runs for each destination stores what the standard says.
pub plain-Stores_ascii : Stores ascii (λ x. get_multibyte_char_size x ascii) store_plain
plain-Stores_ascii = record {
  size = get_multibyte_char_size-encode_char ascii;
  stored =
      λ m d c can. unfold store_plain encode_char encoded in ap (write_bytes m d) (ground arith);
}

pub plain-Stores_utf8 : Stores utf8 (λ x. get_multibyte_char_size x utf8) store_plain
plain-Stores_utf8 = record {
  size = get_multibyte_char_size-encode_char utf8;
  stored = λ m d c can. unfold encode_char encoded in utf8_stored c m d can;
}

pub plain-Stores_utf16le : Stores utf16le (λ x. get_multibyte_char_size x utf16le) store_plain
plain-Stores_utf16le = record {
  size = get_multibyte_char_size-encode_char utf16le;
  stored = λ m d c can. unfold encode_char encoded in utf16le_stored c m d can;
}

pub utf16be-Stores : Stores utf16be (λ x. get_multibyte_char_size x utf16be) store_utf16be
utf16be-Stores = record {
  size = get_multibyte_char_size-encode_char utf16be;
  stored = λ m d c can. unfold encode_char encoded in utf16be_stored c m d can;
}

pub plain-Stores_utf32le : Stores utf32le (λ x. get_multibyte_char_size x utf32le) store_plain
plain-Stores_utf32le = record {
  size = get_multibyte_char_size-encode_char utf32le;
  stored = λ m d c can. unfold encode_char encoded in (utf32_stored m d c can).0;
}

pub utf32be-Stores : Stores utf32be (λ x. 4) store_utf32be
utf32be-Stores = record {
  size = λ c can. unfold encoded in refl;
  stored = λ m d c can. unfold encode_char encoded in (utf32_stored m d c can).1;
}
