-- ===== src/Tests/Prints.antt =====
-- Numbers written to strings, characters found and stepped over, and paths, at concrete inputs.
use tiny_base.Base.{
  ℕ, zero, suc, ◌+◌, ◌<◌, ◌≢◌, ◌-◌, ◌^◌, ◌≡◌, refl, true, some, arith, [], ◌∷◌, length,
}
use tiny_base.Mem.{Mem}
use tiny_base.Memory.{Buffer, buffer}
use tiny_base.Memory.Search.{portable}
use tiny_base.Memory.Search.Portable.{portable-IsCorrect}
use tiny_base.Encoding.{utf8, utf32be}
use tiny_base.Encoding.Char.{encode_char}
use tiny_base.Encoding.Char.Spec.{encoded}
use tiny_base.Strings.{String}
use tiny_base.Strings.Walk.{Shows}
use tiny_base.Strings.Number.{string_to_uint}
use tiny_base.Strings.Print.{append_uint_to_string, append_int_to_string}
use tiny_base.Strings.Print.Ends.{Printed}
use tiny_base.Strings.Print.Signed.{int_text, append_int_to_string-Printed}
use tiny_base.Strings.Print.RoundTrip.{string_to_uint-append_uint_to_string}
use tiny_base.Strings.Chars.{char_in_string, advance_string}
use tiny_base.Strings.Chars.Find.{low_first, CharAt, Finds, char_in_string_lem}
use tiny_base.Strings.Chars.Advance.{Stepped, advance_string-Stepped}
use tiny_base.Platform.Path.{slash, move_up_path, append_path_to_path}
use tiny_base.Platform.Path.Append.{Joined, append_path_to_path-Joined}
use tiny_base.Platform.Path.MoveUp.{move_up_path-parent}
use tiny_base.Tests.Data.{place, zeros}

-- "aé€" at 100, "/a/bc" at 140, "/a" at 160; the pointer 100 at 200.
abbrev page : Mem
page =
    place 100 (0x61 ∷ 0xC3 ∷ 0xA9 ∷ 0xE2 ∷ 0x82 ∷ 0xAC ∷ [])
      (place 140 (0x2F ∷ 0x61 ∷ 0x2F ∷ 0x62 ∷ 0x63 ∷ []) (place 200 (100 ∷ []) zeros))

abbrev wide_room : String
wide_room = record { buf = buffer 300 0 80; enc = utf32be }

abbrev three : String
three = record { buf = buffer 100 6 10; enc = utf8 }

append_int_to_string-Printed_example :
    Printed 500 page wide_room
      (int_text (2 ^ 64 - 42))
      (append_int_to_string 20 500 page (2 ^ 64 - 42) wide_room)
append_int_to_string-Printed_example =
    append_int_to_string-Printed 20 500 page (2 ^ 64 - 42) wide_room (omega arith) (omega arith)
      (omega arith) (omega arith)

string_to_uint-append_uint_to_string_example :
    (buf : Buffer) × (m' : Mem) × (append_uint_to_string 21 500 page 1234 wide_room
      ≡ some (true, buf, m'))
    × (string_to_uint 21 m' (record wide_room { buf = buf }) ≡ some 1234)
string_to_uint-append_uint_to_string_example =
    string_to_uint-append_uint_to_string 21 500 page 1234 wide_room (omega arith) (omega arith)
      (omega arith) refl (omega arith)

three-Shows : Shows page three (0x61 ∷ 0xE9 ∷ 0x20AC ∷ [])
unfolding encoded
three-Shows = record { readable = omega arith; text = refl; expressible = omega arith }

char_in_string_lem_example :
    Finds
      (CharAt page (buffer 100 6 10) utf8 0xE9)
      (char_in_string portable 500 page (encode_char 0xE9 utf8) three)
      100
      (length (encoded (low_first utf8) 0xE9))
char_in_string_lem_example =
    char_in_string_lem portable 500 page 0xE9 three portable-IsCorrect (omega arith) (omega arith)
      (omega arith) (omega arith)

advance_string-Stepped_example :
    Stepped page three (0x20AC ∷ []) (advance_string page utf8 2 (buffer 100 6 10))
advance_string-Stepped_example =
    advance_string-Stepped page three (0x61 ∷ 0xE9 ∷ []) (0x20AC ∷ []) three-Shows (omega arith)

move_up_path-parent_example :
    move_up_path portable 500 page (record { buf = buffer 140 5 64; enc = utf8 }) 1
    ≡ (true, buffer 140 3 64)
move_up_path-parent_example =
    move_up_path-parent portable 500 page (buffer 140 5 64) (0x2F ∷ 0x61 ∷ []) (0x62 ∷ 0x63 ∷ [])
      portable-IsCorrect (omega arith) refl (omega arith) (omega arith)

-- "/a" at 600, with room for 64 bytes.
abbrev path_page : Mem
path_page = place 600 (0x2F ∷ 0x61 ∷ []) page

name_plain : (i : ℕ) → i < 2 → path_page (143 + i) ≢ slash
name_plain zero lt = omega arith
name_plain (suc zero) lt = omega arith
name_plain (suc (suc i)) lt = absurd (omega arith)

append_path_to_path-Joined_example : Joined path_page (buffer 143 2 0) (buffer 600 2 64) (
    append_path_to_path portable 500 9 path_page
      (record { buf = buffer 143 2 0; enc = utf8 })
      (record { buf = buffer 600 2 64; enc = utf8 }))
append_path_to_path-Joined_example =
    append_path_to_path-Joined portable 500 9 path_page (buffer 143 2 0) (buffer 600 2 64)
      (omega arith) (omega arith) (omega arith) name_plain (omega arith) (omega arith) (omega arith)
      (omega arith) (omega arith) (omega arith)
