-- ===== src/Tests/Numbers.antt =====
-- The number functions at concrete inputs: "407" and "-47" in UTF-16, "4B7" in UTF-8.
use tiny_base.Base.{true, ◌≡◌, refl, some, arith, [], ◌∷◌}
use tiny_base.Mem.{Mem}
use tiny_base.Memory.{buffer}
use tiny_base.Encoding.{utf8, utf16le, utf16be}
use tiny_base.Encoding.Char.Spec.{encoded}
use tiny_base.Memory.{contents}
use tiny_base.Strings.{String, encoded_all}
use tiny_base.Strings.Number.{string_to_uint, string_to_hex, string_to_int}
use tiny_base.Strings.Number.Laws.{
  word_or_max, value, decimal_digit, upper_hex_digit, string_to_uint_text, string_to_hex_text,
}
use tiny_base.Strings.Number.Signed.{NoOverflow, word_of_int, string_to_int_text}
use tiny_base.Tests.Data.{place, zeros}

abbrev number_mem : Mem
number_mem = place 100 (0x00 ∷ 0x34 ∷ 0x00 ∷ 0x30 ∷ 0x00 ∷ 0x37 ∷ 0x34 ∷ 0x42 ∷ 0x37 ∷ []) zeros

abbrev decimal_src : String
decimal_src = record { buf = buffer 100 6 0; enc = utf16be }

decimal_text : contents number_mem decimal_src.buf ≡ encoded_all utf16be (0x34 ∷ 0x30 ∷ 0x37 ∷ [])
unfolding encoded
decimal_text = refl

string_to_uint_text_example :
    string_to_uint 4 number_mem decimal_src
    ≡ some (word_or_max (value 10 decimal_digit (0x34 ∷ 0x30 ∷ 0x37 ∷ []) 0))
string_to_uint_text_example =
    string_to_uint_text 4 number_mem decimal_src (0x34 ∷ 0x30 ∷ 0x37 ∷ []) (omega arith)
      (omega arith) decimal_text (omega arith)

abbrev hex_src : String
hex_src = record { buf = buffer 106 3 0; enc = utf8 }

hex_text : contents number_mem hex_src.buf ≡ encoded_all utf8 (0x34 ∷ 0x42 ∷ 0x37 ∷ [])
unfolding encoded
hex_text = refl

string_to_hex_text_example :
    string_to_hex 4 number_mem hex_src
    ≡ some (word_or_max (value 16 upper_hex_digit (0x34 ∷ 0x42 ∷ 0x37 ∷ []) 0))
string_to_hex_text_example =
    string_to_hex_text 4 number_mem hex_src (0x34 ∷ 0x42 ∷ 0x37 ∷ []) (omega arith) (omega arith)
      hex_text (omega arith) (omega arith)

abbrev signed_mem : Mem
signed_mem = place 100 (0x2D ∷ 0x00 ∷ 0x34 ∷ 0x00 ∷ 0x37 ∷ 0x00 ∷ []) zeros

abbrev signed_src : String
signed_src = record { buf = buffer 100 6 0; enc = utf16le }

signed_text : contents signed_mem signed_src.buf ≡ encoded_all utf16le (0x2D ∷ 0x34 ∷ 0x37 ∷ [])
unfolding encoded
signed_text = refl

string_to_int_text_example :
    string_to_int 4 signed_mem signed_src
    ≡ some (word_of_int true (value 10 decimal_digit (0x34 ∷ 0x37 ∷ []) 0))
unfolding NoOverflow decimal_digit
string_to_int_text_example =
    string_to_int_text 4 signed_mem signed_src 0x2D (0x34 ∷ 0x37 ∷ []) (omega arith) (omega arith)
      signed_text (omega arith) (omega arith, (omega arith, tt))
