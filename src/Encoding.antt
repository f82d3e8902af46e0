-- ===== src/Encoding.antt =====
-- The encodings of src/tinybase-strings.h, and the conversions of src/tinybase-encoding.c.
pub mod Utf8
pub mod Utf16
pub mod Char
use tiny_base.Base.{ℕ}

pub data Encoding : Type 0 where
  ascii utf8 utf16le utf16be utf32le utf32be : Encoding

-- The values of the enum, by which the code compares encodings.
abbrev pub enc_value : Encoding → ℕ
enc_value ascii = 1
enc_value utf8 = 2
enc_value utf16le = 3
enc_value utf16be = 4
enc_value utf32le = 5
enc_value utf32be = 6

-- `Enc >= EC_UTF32LE ? 4 : Enc >= EC_UTF16LE ? 2 : 1`
abbrev pub unit_size : Encoding → ℕ
unit_size utf32le = 4
unit_size utf32be = 4
unit_size utf16le = 2
unit_size utf16be = 2
unit_size _ = 1
