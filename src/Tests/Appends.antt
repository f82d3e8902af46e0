-- ===== src/Tests/Appends.antt =====
-- Lengths, classes and appends of strings at concrete inputs: the text "aé€" in UTF-8, "4711" in
-- ASCII, and free room in UTF-16BE.
use tiny_base.Base.{inr, inl, ℕ, ◌≡◌, refl, Bool, some, true, arith, List, [], ◌∷◌, ◌||◌}
use tiny_base.Mem.{Mem, SameOutside}
use tiny_base.Memory.{Buffer, buffer}
use tiny_base.Encoding.{ascii, utf8, utf16be}
use tiny_base.Encoding.Char.Spec.{encoded}
use tiny_base.Strings.{String, encoded_all}
use tiny_base.Strings.Transcode.Spec.{Ended}
use tiny_base.Strings.Transcode.Laws.{HoldsText}
use tiny_base.Strings.Walk.{Shows}
use tiny_base.Strings.Length.{string_len, len_codepoint}
use tiny_base.Strings.Length.CodePoints.{string_len-code_points}
use tiny_base.Strings.Number.{char_is_digit}
use tiny_base.Strings.Class.{char_is_letter, string_is_digit, string_is_letter, string_is_alphanum}
use tiny_base.Strings.Class.Laws.{all, string_is_lem}
use tiny_base.Strings.Append.{append_string_to_string}
use tiny_base.Strings.Append.Text.{append_string_to_string-Ended}
use tiny_base.Memory.Search.{portable}
use tiny_base.Memory.Search.Portable.{portable-IsCorrect}
use tiny_base.Strings.Chars.{count_char_in_string, replace_char_in_string}
use tiny_base.Strings.Chars.Replace.{replace_char_in_string-Shows}
use tiny_base.Strings.Chars.Count.{occurrences, count_char_in_string-occurrences}
use tiny_base.Tests.Data.{place, zeros}

abbrev words_mem : Mem
words_mem =
    place 100 (0x61 ∷ 0xC3 ∷ 0xA9 ∷ 0xE2 ∷ 0x82 ∷ 0xAC ∷ [])
      (place 120 (0x34 ∷ 0x37 ∷ 0x31 ∷ 0x31 ∷ []) zeros)

abbrev three_src : String
three_src = record { buf = buffer 100 6 0; enc = utf8 }

abbrev three_text : List ℕ
three_text = 0x61 ∷ 0xE9 ∷ 0x20AC ∷ []

abbrev digits_src : String
digits_src = record { buf = buffer 120 4 0; enc = ascii }

abbrev digits_text : List ℕ
digits_text = 0x34 ∷ 0x37 ∷ 0x31 ∷ 0x31 ∷ []

abbrev room : String
room = record { buf = buffer 300 0 16; enc = utf16be }

three-Shows : Shows words_mem three_src three_text
unfolding encoded
three-Shows = record { readable = omega arith; text = refl; expressible = omega arith }

digits-Shows : Shows words_mem digits_src digits_text
unfolding encoded
digits-Shows = record { readable = omega arith; text = refl; expressible = omega arith }

three-HoldsText : HoldsText words_mem three_src utf16be three_text
unfolding encoded
three-HoldsText = record { text = refl; expressible = omega arith; expressible_there = omega arith }

string_len-code_points_example : string_len 4 words_mem three_src len_codepoint ≡ some 3
string_len-code_points_example =
    string_len-code_points 4 words_mem three_src three_text (omega arith) three-Shows

string_is_lem_example :
    (string_is_digit 5 words_mem digits_src ≡ some (all char_is_digit digits_text))
    × (string_is_letter 5 words_mem digits_src ≡ some (all char_is_letter digits_text))
    × (string_is_alphanum 5 words_mem digits_src
        ≡ some (all (λ c. char_is_digit c || char_is_letter c) digits_text))
string_is_lem_example = string_is_lem 5 words_mem digits_src digits_text (omega arith) digits-Shows

append_string_to_string-Ended_example :
    (r : Bool × Buffer × Mem) × (append_string_to_string 4 words_mem three_src room ≡ some r)
    × Ended 0 words_mem (buffer 300 0 16) (encoded_all utf16be three_text) r
append_string_to_string-Ended_example =
    append_string_to_string-Ended 4 words_mem three_src room three_text (omega arith) (omega arith)
      (omega arith) (omega arith) (omega arith) three-HoldsText

count_char_in_string-occurrences_example :
    count_char_in_string portable 500 5 words_mem 0x31 digits_src
    ≡ some (occurrences words_mem 0x31 120 4)
count_char_in_string-occurrences_example =
    count_char_in_string-occurrences portable 500 5 words_mem 0x31 digits_src portable-IsCorrect
      (omega arith) (inl refl) (omega arith) (omega arith) (omega arith)

replace_char_in_string-Shows_example :
    (g : Mem) × (replace_char_in_string portable 500 510 7 words_mem 0x61 0x62 three_src
      ≡ some (true, g))
    × Shows g three_src (0x62 ∷ 0xE9 ∷ 0x20AC ∷ [])
    × SameOutside 100 6 words_mem g
replace_char_in_string-Shows_example =
    replace_char_in_string-Shows portable 500 510 7 words_mem 0x61 0x62 three_src three_text
      portable-IsCorrect (inr refl) (omega arith) (omega arith) (omega arith) three-Shows
      (omega arith)
