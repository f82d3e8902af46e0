-- ===== src/Encoding/Char/Laws.antt =====
-- Characters of every encoding: read, written, decoded and encoded.
use tiny_base.Base.{ℕ, ◌+◌, ◌*◌, ◌/◌, ◌%◌, ◌^◌, ◌≡◌, ◌∙◌, refl, arith}
use tiny_base.Mem.{Mem}
use tiny_base.Types.Endian.{flip_endian32_lem}
use tiny_base.Encoding.{Encoding, ascii, utf8, utf16le, utf16be, utf32le, utf32be}
use tiny_base.Encoding.Utf8.Laws.{utf8_to_unicode-unicode_to_utf8}
use tiny_base.Encoding.Utf16.{utf16_to_unicode-unicode_to_utf16}
use tiny_base.Encoding.Char.{
  get_next_char_size, get_multibyte_char_size, adjust_endianness, read_bytes, encode_char,
  decode_char,
}
use tiny_base.Encoding.Char.Spec.{encoded, CanEncode}
use tiny_base.Encoding.Char.Bytes.{Holds, read_four}
use tiny_base.Encoding.Char.Reads.{ReadsAs, reads}
use tiny_base.Encoding.Char.ReadUtf8.{utf8-ReadsAs}
use tiny_base.Encoding.Char.ReadUtf16.{utf16le-ReadsAs, utf16be-ReadsAs}

-- Where memory holds a code point in an encoding that can express it, GetNextCharSize gives the
-- number of its bytes, GetNextChar the mb_char that EncodeChar makes of it, and GetMultibyteCharSize
-- of that mb_char the same number of bytes: for each of the six encodings.
pub encoded-ReadsAs :
    (m : Mem) (p : ℕ) (enc : Encoding) (c : ℕ)
    → CanEncode enc c
    → Holds m p (encoded enc c)
    → ReadsAs m p enc c
unfolding get_next_char_size get_multibyte_char_size encode_char encoded adjust_endianness
encoded-ReadsAs m p ascii c can h = record {
  next_size = refl;
  next_char = reads m p ascii c 1 c refl (unfold read_bytes in h.0) refl;
  char_size = ground arith;
}
encoded-ReadsAs m p utf8 c can h = utf8-ReadsAs m p c can h
encoded-ReadsAs m p utf16le c can h = utf16le-ReadsAs m p c can h
encoded-ReadsAs m p utf16be c can h = utf16be-ReadsAs m p c can h
encoded-ReadsAs m p utf32le c can h = record {
  next_size = refl;
  next_char =
      reads m p utf32le c 4 c refl
        (read_four m p (c % 256) (c / 2 ^ 8 % 256) (c / 2 ^ 16 % 256) (c / 2 ^ 24) h (omega arith)
            (omega arith) (omega arith)
          ∙ omega arith)
        refl;
  char_size = refl;
}
encoded-ReadsAs m p utf32be c can h =
    let a = c / 2 ^ 24 in
    let b = c / 2 ^ 16 % 256 in
    let d = c / 2 ^ 8 % 256 in
    let e = c % 256 in
    record {
      next_size = refl;
      next_char =
          reads m p utf32be c 4 (a + b * 2 ^ 8 + d * 2 ^ 16 + e * 2 ^ 24) refl
            (read_four m p a b d e h (omega arith) (omega arith) (omega arith))
            (flip_endian32_lem a b d e (omega arith) (omega arith) (omega arith) (omega arith)
              ∙ omega arith);
      char_size = refl;
    }

-- DecodeChar undoes EncodeChar on every code point that the encoding can express.
pub decode_char-encode_char :
    (enc : Encoding) (c : ℕ) → CanEncode enc c → decode_char (encode_char c enc) enc ≡ c
unfolding decode_char encode_char
decode_char-encode_char ascii c can = refl
decode_char-encode_char utf8 c can = utf8_to_unicode-unicode_to_utf8 c (omega arith)
decode_char-encode_char utf16le c can = utf16_to_unicode-unicode_to_utf16 c can.0
decode_char-encode_char utf16be c can = utf16_to_unicode-unicode_to_utf16 c can.0
decode_char-encode_char utf32le c can = refl
decode_char-encode_char utf32be c can = refl
