-- ===== src/Strings/Append/Local.antt =====
-- The bytes of a character in a local variable are those of the standard.
use native.Mathlib.Decide.{dec_lt}
use tiny_base.Base.{
  ℕ, zero, suc, ◌+◌, ◌*◌, ◌/◌, ◌%◌, ◌^◌, ◌≤◌, ◌≡◌, refl, ap, ◌∙◌, arith, List, [], ◌∷◌, length,
  lt→ltb, le→ltb,
}
use tiny_base.Mem.{Mem, bytes, SameOutside}
use tiny_base.Mem.Write.{bytes-write_bytes, write_bytes-SameOutside}
use tiny_base.Types.{flip_endian16x2, flip_endian32}
use tiny_base.Types.Endian.{flip_endian16x2_lem, flip_endian32_lem}
use tiny_base.Encoding.{Encoding, ascii, utf8, utf16le, utf16be, utf32le, utf32be}
use tiny_base.Encoding.Utf8.{unicode_to_utf8}
use tiny_base.Encoding.Utf8.Laws.{
  unicode_to_utf8_one, unicode_to_utf8_two, unicode_to_utf8_three, unicode_to_utf8_four,
}
use tiny_base.Encoding.Utf16.{
  unicode_to_utf16, unicode_to_utf16_one, unicode_to_utf16_pair, lead_half, tail_half,
}
use tiny_base.Encoding.Char.{adjust_endianness, encode_char, get_multibyte_char_size}
use tiny_base.Encoding.Char.Spec.{encoded, utf8_bytes, utf16_bytes, little16, big16, CanEncode}
use tiny_base.Encoding.Char.Size.{get_multibyte_char_size-encode_char, length-encoded-le}
use tiny_base.Encoding.Char.Bytes.{Holds, Holds-bytes}
use tiny_base.Strings.Transcode.{byte_of}
use tiny_base.Strings.Append.{store_word}

-- The `n` low bytes of a word, lowest first.
abbrev pub low_bytes : ℕ → ℕ → List ℕ
low_bytes v zero = []
low_bytes v (suc n) = (v % 256) ∷ low_bytes (v / 256) n

pub store_word-SameOutside : (m : Mem) (local v : ℕ) → SameOutside local 4 m (store_word m local v)
unfolding store_word
store_word-SameOutside m local v =
    write_bytes-SameOutside m local (byte_of v 0 ∷ byte_of v 1 ∷ byte_of v 2 ∷ byte_of v 3 ∷ [])

word-Holds :
    (m : Mem) (local v : ℕ)
    → Holds
        (store_word m local v)
        local
        (byte_of v 0 ∷ byte_of v 1 ∷ byte_of v 2 ∷ byte_of v 3 ∷ [])
unfolding store_word
word-Holds m local v =
    Holds-bytes (store_word m local v) local
      (byte_of v 0 ∷ byte_of v 1 ∷ byte_of v 2 ∷ byte_of v 3 ∷ [])
      (bytes-write_bytes m local (byte_of v 0 ∷ byte_of v 1 ∷ byte_of v 2 ∷ byte_of v 3 ∷ [])
        (omega arith))

local_bytes :
    (m : Mem) (local v n : ℕ) → n ≤ 4 → bytes (store_word m local v) local n ≡ low_bytes v n
local_bytes m local v zero le = refl
local_bytes m local v (suc zero) le = let h = word-Holds m local v in rw h.0 (ground arith)
local_bytes m local v (suc (suc zero)) le =
    let h = word-Holds m local v in rw (h.0, h.1.0) (ground arith)
local_bytes m local v (suc (suc (suc zero))) le =
    let h = word-Holds m local v in rw (h.0, h.1.0, h.1.1.0) (ground arith)
local_bytes m local v (suc (suc (suc (suc zero)))) le =
    let h = word-Holds m local v in rw (h.0, h.1.0, h.1.1.0, h.1.1.1.0) (ground arith)
local_bytes m local v (suc (suc (suc (suc (suc n))))) le = absurd (omega arith)

utf8_bytes_lem :
    (c : ℕ)
    → CanEncode utf8 c
    → low_bytes (unicode_to_utf8 c) (length (utf8_bytes c)) ≡ utf8_bytes c
utf8_bytes_lem c can = elim (dec_lt c 0x80) [
  | yes one ↦ rw (unicode_to_utf8_one c one, lt→ltb c 0x80 one) (ground arith)
  | no n1 ↦ elim (dec_lt c 0x800) [
    | yes two ↦
        rw
          (unicode_to_utf8_two c (omega arith) two, le→ltb c 0x80 (omega arith), lt→ltb c 0x800 two)
          (ground arith)
    | no n2 ↦ elim (dec_lt c 0x10000) [
      | yes three ↦
          rw
            (
              unicode_to_utf8_three c (omega arith) three,
              le→ltb c 0x80 (omega arith),
              le→ltb c 0x800 (omega arith),
              lt→ltb c 0x10000 three,
            )
            (ground arith)
      | no n3 ↦
          rw
            (
              unicode_to_utf8_four c (omega arith) (omega arith),
              le→ltb c 0x80 (omega arith),
              le→ltb c 0x800 (omega arith),
              le→ltb c 0x10000 (omega arith),
            )
            (ground arith)
    ]
  ]
]

utf16le_bytes_lem :
    (c : ℕ)
    → CanEncode utf16le c
    → low_bytes (unicode_to_utf16 c) (length (utf16_bytes little16 c)) ≡ utf16_bytes little16 c
utf16le_bytes_lem c can = elim (dec_lt c 0x10000) [
  | yes one ↦ rw (unicode_to_utf16_one c one, lt→ltb c 0x10000 one) (ground arith)
  | no pair ↦
      rw (unicode_to_utf16_pair c (omega arith) can.0, le→ltb c 0x10000 (omega arith))
        (ground arith)
]

utf16be_bytes_lem :
    (c : ℕ)
    → CanEncode utf16be c
    → low_bytes (flip_endian16x2 (unicode_to_utf16 c)) (length (utf16_bytes big16 c))
      ≡ utf16_bytes big16 c
utf16be_bytes_lem c can = elim (dec_lt c 0x10000) [
  | yes one ↦
      let split : c ≡ c % 256 + c / 256 * 2 ^ 8 + 0 * 2 ^ 16 + 0 * 2 ^ 24 = omega arith in
      let flip : flip_endian16x2 c ≡ c / 256 + c % 256 * 2 ^ 8 =
        ap flip_endian16x2 split
        ∙ flip_endian16x2_lem (c % 256) (c / 256) 0 0 (omega arith) (omega arith) (omega arith)
            (omega arith)
        ∙ omega arith in
      rw (unicode_to_utf16_one c one, lt→ltb c 0x10000 one, flip) (ground arith)
  | no pair ↦
      let a = lead_half c in
      let b = tail_half c in
      let split : a + b * 2 ^ 16 ≡ a % 256 + a / 256 * 2 ^ 8 + b % 256 * 2 ^ 16 + b / 256 * 2 ^ 24 =
        omega arith in
      let flip =
        ap flip_endian16x2 split
        ∙ flip_endian16x2_lem (a % 256) (a / 256) (b % 256) (b / 256) (omega arith) (omega arith)
            (omega arith) (omega arith) in
      rw (unicode_to_utf16_pair c (omega arith) can.0, le→ltb c 0x10000 (omega arith), flip)
        (ground arith)
]

pub char_bytes :
    (enc : Encoding) (c : ℕ)
    → CanEncode enc c
    → low_bytes (adjust_endianness (encode_char c enc) enc) (length (encoded enc c)) ≡ encoded enc c
unfolding adjust_endianness encode_char encoded
char_bytes ascii c can = ground arith
char_bytes utf8 c can = utf8_bytes_lem c can
char_bytes utf16le c can = utf16le_bytes_lem c can
char_bytes utf16be c can = utf16be_bytes_lem c can
char_bytes utf32le c can = ground arith
char_bytes utf32be c can =
    let split : c
        ≡ c % 256 + c / 2 ^ 8 % 256 * 2 ^ 8 + c / 2 ^ 16 % 256 * 2 ^ 16 + c / 2 ^ 24 * 2 ^ 24 =
      omega arith in
    let flip =
      ap flip_endian32 split
      ∙ flip_endian32_lem (c % 256) (c / 2 ^ 8 % 256) (c / 2 ^ 16 % 256) (c / 2 ^ 24) (omega arith)
          (omega arith) (omega arith) (omega arith) in
    rw flip (ground arith)

-- A character in a local variable, in the byte order of the encoding.
pub bytes-local_char :
    (m : Mem) (local : ℕ) (enc : Encoding) (c : ℕ)
    → CanEncode enc c
    → bytes
        (store_word m local (adjust_endianness (encode_char c enc) enc))
        local
        (get_multibyte_char_size (encode_char c enc) enc)
      ≡ encoded enc c
bytes-local_char m local enc c can = rw (get_multibyte_char_size-encode_char enc c can) (
    local_bytes m local (adjust_endianness (encode_char c enc) enc) (length (encoded enc c))
      (length-encoded-le enc c)
    ∙ char_bytes enc c can)
