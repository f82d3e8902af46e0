-- ===== src/Encoding/Utf8.antt =====
-- `_UTF8ToUnicode` and `_UnicodeToUTF8`. An mb_char holds the bytes of a character with the first
-- byte lowest; both types are 32 bits wide.
pub mod Laws
use tiny_base.Base.{ℕ, ◌+◌, ◌%◌, ◌^◌, ◌*◌, ◌/◌, bit_and, bit_or, ltb, if◌then◌else◌}
use tiny_base.Base.Word.{u32, ◌<<<◌, ◌>>>◌}

pub utf8_to_unicode : ℕ → ℕ
utf8_to_unicode c =
    if ltb c 0x80
    then c
    else if ltb c 0xFFFF
    then bit_or (bit_and c 0x1f <<< 6) (bit_and c 0x3f00 >>> 8)
    else if ltb c 0xFFFFFF
    then bit_or (bit_or (bit_and c 0x0f <<< 12) (bit_and c 0x3f00 >>> 2))
        (bit_and c 0x3f0000 >>> 16)
    else bit_or
        (bit_or (bit_or (bit_and c 0x07 <<< 18) (bit_and c 0x3f00 <<< 4))
          (bit_and c 0x3f0000 >>> 10))
        (bit_and c 0x3f000000 >>> 24)

pub unicode_to_utf8 : ℕ → ℕ
unicode_to_utf8 c =
    if ltb c 0x80
    then c
    else if ltb c 0x800
    then u32 (u32 (bit_or (bit_and c 0x3f) 0x80 <<< 8) + bit_or (bit_and (c >>> 6) 0x1f) 0xc0)
    else if ltb c 0x10000
    then u32 (
        u32 (bit_or (bit_and c 0x3f) 0x80 <<< 16)
        + u32 (bit_or (bit_and (c >>> 6) 0x3f) 0x80 <<< 8)
        + bit_or (bit_and (c >>> 12) 0xf) 0xe0)
    else u32 (
        u32 (bit_or (bit_and c 0x3f) 0x80 <<< 24)
        + u32 (bit_or (bit_and (c >>> 6) 0x3f) 0x80 <<< 16)
        + u32 (bit_or (bit_and (c >>> 12) 0x3f) 0x80 <<< 8)
        + bit_or (bit_and (c >>> 18) 0x7) 0xf0)
