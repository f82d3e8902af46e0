-- ===== src/Tests/Data.antt =====
-- Memory with known bytes, for the tests.
use tiny_base.Base.{ℕ, ◌+◌, List, [], ◌∷◌, ◌==◌, if◌then◌else◌}
use tiny_base.Mem.{Mem}
use tiny_base.Memory.{Buffer, buffer}

-- The bytes `xs` from address `a` on, over `m`.
abbrev pub place : ℕ → List ℕ → Mem → Mem
place a [] m = m
place a (x ∷ xs) m = λ y. if y == a then x else place (a + 1) xs m y

abbrev pub zeros : Mem
zeros = λ _. 0

-- "banana" at 100 and "an" at 200; 16 free bytes at 300.
abbrev pub mem : Mem
mem = place 100 (98 ∷ 97 ∷ 110 ∷ 97 ∷ 110 ∷ 97 ∷ []) (place 200 (97 ∷ 110 ∷ []) zeros)

abbrev pub banana : Buffer
banana = buffer 100 6 0

abbrev pub an : Buffer
an = buffer 200 2 0

abbrev pub free16 : Buffer
free16 = buffer 300 0 16
