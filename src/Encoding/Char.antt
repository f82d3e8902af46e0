-- ===== src/Encoding/Char.antt =====
-- Reading one character: the size functions of src/tinybase-encoding.c, and the reading part of
-- src/tinybase-strings.c. A character in memory is read through its address.
pub mod Spec
pub mod Bytes
pub mod Size
pub mod Reads
pub mod ReadUtf8
pub mod ReadUtf16
pub mod Laws
pub mod Low
use tiny_base.Base.{ℕ, ◌+◌, ◌*◌, ◌/◌, ◌%◌, ◌^◌, bit_or, ltb, leb, ◌&&◌, ◌==◌, if◌then◌else◌}
use tiny_base.Base.Word.{u32, ◌<<<◌, ◌>>>◌}
use tiny_base.Mem.{Mem, store8}
use tiny_base.Types.{flip_endian16x2, flip_endian32}
use tiny_base.Encoding.{Encoding, ascii, utf8, utf16le, utf16be, utf32le, utf32be}
use tiny_base.Encoding.Utf8.{utf8_to_unicode, unicode_to_utf8}
use tiny_base.Encoding.Utf16.{utf16_to_unicode, unicode_to_utf16}

unfoldable pub utf8_char_size : Mem → ℕ → ℕ
utf8_char_size m ptr =
    if leb (m ptr) 0x7f
    then 1
    else if m ptr >>> 5 == 0x6
    then 2
    else if m ptr >>> 4 == 0xe
    then 3
    else if m ptr >>> 3 == 0x1e
    then 4
    else 1

unfoldable pub utf16le_char_size : Mem → ℕ → ℕ
utf16le_char_size m ptr = if leb 0xd8 (m (ptr + 1)) && ltb (m (ptr + 1)) 0xe0 then 4 else 2

unfoldable pub utf16be_char_size : Mem → ℕ → ℕ
utf16be_char_size m ptr = if leb 0xd8 (m ptr) && ltb (m ptr) 0xe0 then 4 else 2

unfoldable pub get_multibyte_char_size : ℕ → Encoding → ℕ
get_multibyte_char_size c utf16le = if leb c 0xFFFF then 2 else 4
get_multibyte_char_size c utf16be = if leb c 0xFFFF then 2 else 4
get_multibyte_char_size c utf32le = 4
get_multibyte_char_size c utf32be = 4
get_multibyte_char_size c _ =
    if leb c 0xFF then 1 else if leb c 0xFFFF then 2 else if leb c 0xFFFFFF then 3 else 4

unfoldable pub get_next_char_size : Mem → ℕ → Encoding → ℕ
get_next_char_size m src utf8 = utf8_char_size m src
get_next_char_size m src utf16le = utf16le_char_size m src
get_next_char_size m src utf16be = utf16be_char_size m src
get_next_char_size m src utf32le = 4
get_next_char_size m src utf32be = 4
get_next_char_size m src _ = 1

unfoldable pub adjust_endianness : ℕ → Encoding → ℕ
adjust_endianness c utf16be = flip_endian16x2 c
adjust_endianness c utf32be = flip_endian32 c
adjust_endianness c _ = c

-- The `switch (Size)` over the bytes at `ptr`.
unfoldable pub read_bytes : Mem → (ptr size : ℕ) → ℕ
read_bytes m ptr size =
    if size == 1
    then m ptr
    else if size == 2
    then bit_or (m (ptr + 1) <<< 8) (m ptr)
    else if size == 3
    then bit_or (bit_or (m (ptr + 2) <<< 16) (m (ptr + 1) <<< 8)) (m ptr)
    else if size == 4
    then bit_or (bit_or (bit_or (m (ptr + 3) <<< 24) (m (ptr + 2) <<< 16)) (m (ptr + 1) <<< 8))
        (m ptr)
    else 0

unfoldable pub get_next_char : Mem → ℕ → Encoding → ℕ
unfolding read_bytes
get_next_char m src enc = adjust_endianness (read_bytes m src (get_next_char_size m src enc)) enc

pub decode_char : ℕ → Encoding → ℕ
decode_char c utf8 = utf8_to_unicode c
decode_char c utf16le = utf16_to_unicode c
decode_char c utf16be = utf16_to_unicode c
decode_char c _ = c

unfoldable pub encode_char : ℕ → Encoding → ℕ
encode_char c utf8 = unicode_to_utf8 c
encode_char c utf16le = unicode_to_utf16 c
encode_char c utf16be = unicode_to_utf16 c
encode_char c _ = c
