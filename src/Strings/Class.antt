-- ===== src/Strings/Class.antt =====
-- The classes of characters, and the tests that all characters of a string are in one, of
-- src/tinybase-strings.c.
pub mod Laws
use tiny_base.Base.{
  ℕ, zero, suc, ◌+◌, Bool, true, false, ◌&&◌, ◌||◌, Option, none, some, ltb, leb, if◌then◌else◌,
}
use tiny_base.Base.Word.{add_usz}
use tiny_base.Mem.{Mem}
use tiny_base.Encoding.{Encoding, ascii, utf8, utf16le, utf16be, utf32le, utf32be, unit_size}
use tiny_base.Encoding.Char.{get_next_char}
use tiny_base.Strings.{String}
use tiny_base.Strings.Number.{char_is_digit}

unfoldable pub char_is_letter : ℕ → Bool
char_is_letter char = leb 0x61 char && leb char 0x7a || (leb 0x41 char && leb char 0x5a)

unfoldable pub char_is_alphanum : ℕ → Bool
char_is_alphanum char =
    leb 0x61 char && leb char 0x7a
    || (leb 0x41 char && leb char 0x5a)
    || (leb 0x30 char && leb char 0x39)

-- `EC = (Src.Enc == EC_UTF8) ? EC_ASCII : Src.Enc`
abbrev pub by_unit : Encoding → Encoding
by_unit ascii = ascii
by_unit utf8 = ascii
by_unit utf16le = utf16le
by_unit utf16be = utf16be
by_unit utf32le = utf32le
by_unit utf32be = utf32be

-- The loop that StringIsDigit, StringIsLetter and StringIsAlphanum share. `none` means that the fuel
-- ran out.
module _ (test : ℕ → Bool) (m : Mem) (src : String) where
  pub all_chars : (fuel idx : ℕ) → Option Bool
  all_chars zero idx = none
  all_chars (suc fuel) idx =
      let char = get_next_char m (src.base + idx) (by_unit src.enc) in
      let rest = all_chars fuel (add_usz idx (unit_size (by_unit src.enc))) in
      if ltb idx src.write_cur then (if test char then rest else some false) else some true

pub string_is_digit : ℕ → Mem → String → Option Bool
string_is_digit fuel m src = all_chars char_is_digit m src fuel 0

pub string_is_letter : ℕ → Mem → String → Option Bool
string_is_letter fuel m src = all_chars char_is_letter m src fuel 0

pub string_is_alphanum : ℕ → Mem → String → Option Bool
string_is_alphanum fuel m src = all_chars char_is_alphanum m src fuel 0
