-- ===== src/Tests/Queries.antt =====
-- The queries of strings at concrete inputs: "aé" twice in UTF-8.
use tiny_base.Base.{ℕ, ◌≡◌, ◌↔◌, refl, true, arith, List, [], ◌∷◌}
use tiny_base.Mem.{Mem}
use tiny_base.Memory.{buffer}
use tiny_base.Encoding.{utf8}
use tiny_base.Encoding.Char.Spec.{encoded}
use tiny_base.Strings.{String}
use tiny_base.Strings.Query.{equal_strings}
use tiny_base.Strings.Query.Equal.{equal_strings_iff}
use tiny_base.Strings.Walk.{Shows}
use tiny_base.Tests.Data.{place, zeros}

abbrev twice_mem : Mem
twice_mem = place 100 (0x61 ∷ 0xC3 ∷ 0xA9 ∷ 0x61 ∷ 0xC3 ∷ 0xA9 ∷ []) zeros

abbrev first_copy : String
first_copy = record { buf = buffer 100 3 0; enc = utf8 }

abbrev second_copy : String
second_copy = record { buf = buffer 103 3 3; enc = utf8 }

abbrev both_texts : List ℕ
both_texts = 0x61 ∷ 0xE9 ∷ []

first-Shows : Shows twice_mem first_copy both_texts
unfolding encoded
first-Shows = record { readable = omega arith; text = refl; expressible = omega arith }

second-Shows : Shows twice_mem second_copy both_texts
unfolding encoded
second-Shows = record { readable = omega arith; text = refl; expressible = omega arith }

equal_strings_iff_example :
    (equal_strings twice_mem first_copy second_copy ≡ true)
    ↔ ((first_copy.enc ≡ second_copy.enc) × (both_texts ≡ both_texts))
equal_strings_iff_example =
    equal_strings_iff twice_mem first_copy second_copy both_texts both_texts first-Shows
      second-Shows
