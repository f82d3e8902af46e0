-- ===== src/Encoding/Char/Spec.antt =====
-- The encodings as the Unicode standard gives them: the bytes of a code point, in memory order.
use tiny_base.Base.{ℕ, ◌+◌, ◌/◌, ◌%◌, ◌^◌, ◌≤◌, ◌<◌, ◌⊎◌, List, [], ◌∷◌, ◌++◌, ltb, if◌then◌else◌}
use tiny_base.Encoding.{Encoding, ascii, utf8, utf16le, utf16be, utf32le, utf32be}
use tiny_base.Encoding.Utf8.Laws.{tail_byte}
use tiny_base.Encoding.Utf16.{lead_half, tail_half}

abbrev pub utf8_bytes : ℕ → List ℕ
utf8_bytes c =
    if ltb c 0x80
    then c ∷ []
    else if ltb c 0x800
    then (0xc0 + c / 64) ∷ tail_byte c ∷ []
    else if ltb c 0x10000
    then (0xe0 + c / 4096) ∷ tail_byte (c / 64) ∷ tail_byte c ∷ []
    else (0xf0 + c / 2 ^ 18) ∷ tail_byte (c / 4096) ∷ tail_byte (c / 64) ∷ tail_byte c ∷ []

abbrev pub little16 : ℕ → List ℕ
little16 x = (x % 256) ∷ (x / 256) ∷ []

abbrev pub big16 : ℕ → List ℕ
big16 x = (x / 256) ∷ (x % 256) ∷ []

abbrev pub utf16_bytes : (ℕ → List ℕ) → ℕ → List ℕ
utf16_bytes half c = if ltb c 0x10000 then half c else half (lead_half c) ++ half (tail_half c)

unfoldable pub encoded : Encoding → ℕ → List ℕ
encoded ascii c = c ∷ []
encoded utf8 c = utf8_bytes c
encoded utf16le c = utf16_bytes little16 c
encoded utf16be c = utf16_bytes big16 c
encoded utf32le c = (c % 256) ∷ (c / 2 ^ 8 % 256) ∷ (c / 2 ^ 16 % 256) ∷ (c / 2 ^ 24) ∷ []
encoded utf32be c = (c / 2 ^ 24) ∷ (c / 2 ^ 16 % 256) ∷ (c / 2 ^ 8 % 256) ∷ (c % 256) ∷ []

-- Code points that are not surrogates.
abbrev pub IsScalar : ℕ → Type 0
IsScalar c = (c < 0x110000) × ((c < 0xd800) ⊎ (0xe000 ≤ c))

-- What an encoding can express.
abbrev pub CanEncode : Encoding → ℕ → Type 0
CanEncode ascii c = c < 0x80
CanEncode utf8 c = IsScalar c
CanEncode utf16le c = IsScalar c
CanEncode utf16be c = IsScalar c
CanEncode utf32le c = IsScalar c
CanEncode utf32be c = IsScalar c
