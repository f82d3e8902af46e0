-- ===== src/Encoding/Char/Low.antt =====
-- Characters below 0x80 stand for themselves in every encoding.
use tiny_base.Base.{ℕ, ◌<◌, ◌≡◌, refl, sym, ◌∙◌, length, lt→ltb, arith}
use tiny_base.Encoding.{Encoding, ascii, utf8, utf16le, utf16be, utf32le, utf32be, unit_size}
use tiny_base.Encoding.Utf8.Laws.{utf8_to_unicode_low, unicode_to_utf8_low}
use tiny_base.Encoding.Utf16.{utf16_to_unicode_low, unicode_to_utf16_one}
use tiny_base.Encoding.Char.{encode_char, decode_char}
use tiny_base.Encoding.Char.Spec.{encoded, CanEncode}
use tiny_base.Encoding.Char.Laws.{decode_char-encode_char}

decode_char_low : (enc : Encoding) (x : ℕ) → x < 0x80 → decode_char x enc ≡ x
unfolding decode_char
decode_char_low ascii x low = refl
decode_char_low utf8 x low = utf8_to_unicode_low x low
decode_char_low utf16le x low = utf16_to_unicode_low x low
decode_char_low utf16be x low = utf16_to_unicode_low x low
decode_char_low utf32le x low = refl
decode_char_low utf32be x low = refl

pub encode_char_of_low : (enc : Encoding) (c : ℕ) → c < 0x80 → encode_char c enc ≡ c
unfolding encode_char
encode_char_of_low ascii c low = refl
encode_char_of_low utf8 c low = unicode_to_utf8_low c low
encode_char_of_low utf16le c low = unicode_to_utf16_one c (omega arith)
encode_char_of_low utf16be c low = unicode_to_utf16_one c (omega arith)
encode_char_of_low utf32le c low = refl
encode_char_of_low utf32be c low = refl

pub encode_char_low :
    (enc : Encoding) (c : ℕ) → CanEncode enc c → encode_char c enc < 0x80 → encode_char c enc ≡ c
encode_char_low enc c can low =
    sym (decode_char_low enc (encode_char c enc) low) ∙ decode_char-encode_char enc c can

pub length-encoded_low :
    (enc : Encoding) (c : ℕ) → c < 0x80 → length (encoded enc c) ≡ unit_size enc
unfolding encoded
length-encoded_low ascii c low = refl
length-encoded_low utf8 c low = rw (lt→ltb c 0x80 low) refl
length-encoded_low utf16le c low = rw (lt→ltb c 0x10000 (omega arith)) refl
length-encoded_low utf16be c low = rw (lt→ltb c 0x10000 (omega arith)) refl
length-encoded_low utf32le c low = refl
length-encoded_low utf32be c low = refl
