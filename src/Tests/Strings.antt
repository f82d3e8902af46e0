-- ===== src/Tests/Strings.antt =====
-- The encodings and Transcode at concrete inputs: the text "aé€😀" in UTF-8, put into UTF-16.
use tiny_base.Base.{ℕ, ◌≡◌, refl, Bool, some, arith, List, [], ◌∷◌}
use tiny_base.Mem.{Mem}
use tiny_base.Memory.{Buffer, buffer}
use tiny_base.Encoding.{utf8, utf16le, utf16be}
use tiny_base.Encoding.Char.{encode_char, decode_char}
use tiny_base.Encoding.Char.Spec.{encoded}
use tiny_base.Encoding.Char.Reads.{ReadsAs}
use tiny_base.Encoding.Char.Laws.{encoded-ReadsAs, decode_char-encode_char}
use tiny_base.Strings.{String, encoded_all}
use tiny_base.Strings.Transcode.{transcode}
use tiny_base.Strings.Transcode.Spec.{Ended}
use tiny_base.Strings.Transcode.Laws.{HoldsText, transcode-Ended}
use tiny_base.Tests.Data.{place, zeros}

abbrev text_mem : Mem
text_mem =
    place 100 (0x61 ∷ 0xC3 ∷ 0xA9 ∷ 0xE2 ∷ 0x82 ∷ 0xAC ∷ 0xF0 ∷ 0x9F ∷ 0x98 ∷ 0x80 ∷ []) zeros

abbrev text : List ℕ
text = 0x61 ∷ 0xE9 ∷ 0x20AC ∷ 0x1F600 ∷ []

abbrev text_src : String
text_src = record { buf = buffer 100 10 0; enc = utf8 }

abbrev text_dst : String
text_dst = record { buf = buffer 300 0 16; enc = utf16be }

text-HoldsText : HoldsText text_mem text_src utf16be text
unfolding encoded
text-HoldsText = record { text = refl; expressible = omega arith; expressible_there = omega arith }

transcode-Ended_example :
    (r : Bool × Buffer × Mem) × (transcode 5 text_mem text_src text_dst ≡ some r)
    × Ended 0 text_mem (buffer 300 0 16) (encoded_all utf16be text) r
transcode-Ended_example =
    transcode-Ended 5 text_mem text_src text_dst text (omega arith) (omega arith) (omega arith)
      (omega arith) (omega arith) text-HoldsText

encoded-ReadsAs_example : ReadsAs text_mem 103 utf8 0x20AC
unfolding encoded
encoded-ReadsAs_example = encoded-ReadsAs text_mem 103 utf8 0x20AC (omega arith) (omega arith)

decode_char-encode_char_example : decode_char (encode_char 0x1F600 utf16le) utf16le ≡ 0x1F600
decode_char-encode_char_example = decode_char-encode_char utf16le 0x1F600 (omega arith)
