-- ===== src/Strings/Length.antt =====
-- StringLen: the counts of code points, of printable characters and of the bytes of a C string, of
-- src/tinybase-encoding.c and src/tinybase-strings.c. `none` means that the fuel ran out.
pub mod CodePoints
pub mod Printable
pub mod CString
use tiny_base.Base.{
  ℕ, zero, suc, ◌+◌, ◌-◌, ◌*◌, ◌/◌, ◌%◌, ◌^◌, Bool, true, false, not, ◌&&◌, ◌||◌, Option, none,
  some, bit_and, bit_or, ltb, leb, ◌==◌, if◌then◌else◌,
}
use tiny_base.Base.Word.{u32, add_usz, sub_usz, ◌<<<◌}
use tiny_base.Mem.{Mem}
use tiny_base.Memory.{Buffer, buffer, of_bool}
use tiny_base.Encoding.{Encoding, ascii, utf8, utf16le, utf16be, utf32le, utf32be}
use tiny_base.Encoding.Char.{utf8_char_size, utf16le_char_size, utf16be_char_size}
use tiny_base.Strings.{String}

-- `char` is signed: a byte that is read through `char*` becomes an `int` with its sign, here as the
-- 32-bit word that holds it.
abbrev pub signed_char : ℕ → ℕ
signed_char b = if ltb b 0x80 then b else b + (2 ^ 32 - 0x100)

-- The test of a character that is read, and of a byte of an ASCII string, which is a signed `char`.
pub is_printable : ℕ → Bool
is_printable c = leb 0x20 c && ltb c 0x7f || ltb 0x9f c

pub is_printable_ascii : ℕ → Bool
is_printable_ascii b = leb 0x20 b && ltb b 0x7f

-- A byte that does not continue a character.
pub starts_char : ℕ → Bool
starts_char b = not (bit_and b 0xc0 == 0x80)

-- `for (Idx = 0; Idx < A.WriteCur; Idx++) if (..A.Base[Idx]..) Result++`, over the rounds left.
module _ (test : ℕ → Bool) (m : Mem) (base : ℕ) where
  pub count_bytes : (rounds idx result : ℕ) → ℕ
  count_bytes zero idx result = result
  count_bytes (suc rounds) idx result =
      count_bytes rounds (idx + 1) (if test (m (base + idx)) then add_usz result 1 else result)

pub ascii_len_print_char : Mem → String → ℕ
ascii_len_print_char m a = count_bytes is_printable_ascii m a.base a.write_cur 0 0

pub utf8_len_code_points : Mem → String → ℕ
utf8_len_code_points m a = count_bytes starts_char m a.base a.write_cur 0 0

-- The loops of `_UTF16LELenCodePoints` and `_UTF16BELenCodePoints`, which differ in the size.
module _ (size_at : ℕ → ℕ) (a : String) where
  pub len_loop : (fuel idx result : ℕ) → Option ℕ
  len_loop zero idx result = none
  len_loop (suc fuel) idx result =
      let rest = len_loop fuel (add_usz idx (size_at (a.base + idx))) (add_usz result 1) in
      if ltb idx a.write_cur then rest else some result

pub utf16le_len_code_points : ℕ → Mem → String → Option ℕ
utf16le_len_code_points fuel m a = len_loop (utf16le_char_size m) a fuel 0 0

pub utf16be_len_code_points : ℕ → Mem → String → Option ℕ
utf16be_len_code_points fuel m a = len_loop (utf16be_char_size m) a fuel 0 0

-- Bytes read through `char*` and put together as `int`s, the first of them lowest.
pub signed_two : Mem → (b0 b1 : ℕ) → ℕ
signed_two m b0 b1 = bit_or (u32 (signed_char (m b1) <<< 8)) (signed_char (m b0))

pub signed_three : Mem → (b0 b1 b2 : ℕ) → ℕ
signed_three m b0 b1 b2 =
    bit_or (bit_or (u32 (signed_char (m b2) <<< 16)) (u32 (signed_char (m b1) <<< 8)))
      (signed_char (m b0))

pub signed_four : Mem → (b0 b1 b2 b3 : ℕ) → ℕ
signed_four m b0 b1 b2 b3 =
    bit_or
      (bit_or (bit_or (u32 (signed_char (m b3) <<< 24)) (u32 (signed_char (m b2) <<< 16)))
        (u32 (signed_char (m b1) <<< 8)))
      (signed_char (m b0))

-- The character at `ptr` as the loops on printable characters put it together, and the step of `Ptr`
-- behind it.
pub utf8_print_char : Mem → (ptr : ℕ) → ℕ
unfolding signed_two signed_three signed_four
utf8_print_char m ptr =
    if utf8_char_size m ptr == 1
    then signed_char (m ptr)
    else if utf8_char_size m ptr == 2
    then signed_two m ptr (ptr + 1)
    else if utf8_char_size m ptr == 3
    then signed_three m ptr (ptr + 1) (ptr + 2)
    else signed_four m ptr (ptr + 1) (ptr + 2) (ptr + 3)

pub utf16le_print_char : Mem → (ptr : ℕ) → ℕ
unfolding signed_two signed_four
utf16le_print_char m ptr =
    if utf16le_char_size m ptr == 2
    then signed_two m ptr (ptr + 1)
    else signed_four m ptr (ptr + 1) (ptr + 2) (ptr + 3)

pub utf16be_print_char : Mem → (ptr : ℕ) → ℕ
unfolding signed_two signed_four
utf16be_print_char m ptr =
    if utf16be_char_size m ptr == 2
    then signed_two m (ptr + 1) ptr
    else signed_four m (ptr + 1) ptr (ptr + 3) (ptr + 2)

pub utf32le_print_char : Mem → ℕ → ℕ
unfolding signed_four
utf32le_print_char m ptr = signed_four m ptr (ptr + 1) (ptr + 2) (ptr + 3)

pub utf32be_print_char : Mem → ℕ → ℕ
unfolding signed_four
utf32be_print_char m ptr = signed_four m (ptr + 3) (ptr + 2) (ptr + 1) ptr

-- `for (char* Ptr = A.Base; Ptr < A.Base + A.WriteCur; )`
module _ (char_at : ℕ → ℕ) (size_of : (ptr char : ℕ) → ℕ) (stop : ℕ) where
  pub print_loop : (fuel ptr result : ℕ) → Option ℕ
  print_loop zero ptr result = none
  print_loop (suc fuel) ptr result =
      let char = char_at ptr in
      let rest =
        print_loop fuel (ptr + size_of ptr char)
          (if is_printable char then add_usz result 1 else result) in
      if ltb ptr stop then rest else some result

pub utf8_len_print_char : ℕ → Mem → String → Option ℕ
utf8_len_print_char fuel m a =
    print_loop (utf8_print_char m) (λ ptr char. utf8_char_size m ptr) (a.base + a.write_cur) fuel
      a.base 0

-- `Ptr += (Char > 0xFFFF) ? 4 : 2`
pub utf16_print_step : (ptr char : ℕ) → ℕ
utf16_print_step ptr char = if ltb 0xFFFF char then 4 else 2

pub utf16le_len_print_char : ℕ → Mem → String → Option ℕ
utf16le_len_print_char fuel m a =
    print_loop (utf16le_print_char m) utf16_print_step (a.base + a.write_cur) fuel a.base 0

pub utf16be_len_print_char : ℕ → Mem → String → Option ℕ
utf16be_len_print_char fuel m a =
    print_loop (utf16be_print_char m) utf16_print_step (a.base + a.write_cur) fuel a.base 0

pub utf32le_len_print_char : ℕ → Mem → String → Option ℕ
utf32le_len_print_char fuel m a =
    print_loop (utf32le_print_char m) (λ ptr char. 4) (a.base + a.write_cur) fuel a.base 0

pub utf32be_len_print_char : ℕ → Mem → String → Option ℕ
utf32be_len_print_char fuel m a =
    print_loop (utf32be_print_char m) (λ ptr char. 4) (a.base + a.write_cur) fuel a.base 0

-- The search for the null unit of `n` bytes: strlen of the C library, `_UTF16LenCString` and
-- `_UTF32LenCString`, which read words of 1, 2 and 4 bytes.
unfoldable pub null_unit : Mem → (n ptr : ℕ) → Bool
null_unit m zero ptr = true
null_unit m (suc n) ptr = m ptr == 0 && null_unit m n (ptr + 1)

module _ (m : Mem) (unit : ℕ) where
  unfoldable pub find_null : (fuel ptr : ℕ) → Option ℕ
  find_null zero ptr = none
  find_null (suc fuel) ptr =
      let rest = find_null fuel (ptr + unit) in if null_unit m unit ptr then some ptr else rest

unfoldable pub len_c_string : (unit fuel : ℕ) → Mem → String → Option ℕ
len_c_string unit fuel m a = elim (find_null m unit fuel a.base) [
  | none ↦ none
  | some ptr ↦ some (sub_usz ptr a.base)
]

unfoldable pub strlen : ℕ → Mem → String → Option ℕ
strlen fuel m a = len_c_string 1 fuel m a

pub utf16_len_c_string : ℕ → Mem → String → Option ℕ
utf16_len_c_string fuel m a = len_c_string 2 fuel m a

pub utf32_len_c_string : ℕ → Mem → String → Option ℕ
utf32_len_c_string fuel m a = len_c_string 4 fuel m a

pub data LenType : Type 0 where
  len_cstring len_codepoint len_printchar : LenType

-- StringLen, one helper for each of its switches.
code_points : Encoding → ℕ → Mem → String → Option ℕ
code_points ascii fuel m a = some a.write_cur
code_points utf8 fuel m a = some (utf8_len_code_points m a)
code_points utf16le fuel m a = utf16le_len_code_points fuel m a
code_points utf16be fuel m a = utf16be_len_code_points fuel m a
code_points utf32le fuel m a = some (a.write_cur / 4)
code_points utf32be fuel m a = some (a.write_cur / 4)

print_chars : Encoding → ℕ → Mem → String → Option ℕ
print_chars ascii fuel m a = some (ascii_len_print_char m a)
print_chars utf8 fuel m a = utf8_len_print_char fuel m a
print_chars utf16le fuel m a = utf16le_len_print_char fuel m a
print_chars utf16be fuel m a = utf16be_len_print_char fuel m a
print_chars utf32le fuel m a = utf32le_len_print_char fuel m a
print_chars utf32be fuel m a = utf32be_len_print_char fuel m a

c_string : Encoding → ℕ → Mem → String → Option ℕ
c_string utf16le fuel m a = utf16_len_c_string fuel m a
c_string utf16be fuel m a = utf16_len_c_string fuel m a
c_string utf32le fuel m a = utf32_len_c_string fuel m a
c_string utf32be fuel m a = utf32_len_c_string fuel m a
c_string _ fuel m a = strlen fuel m a

pub string_len : ℕ → Mem → String → LenType → Option ℕ
unfolding code_points print_chars c_string
string_len fuel m a len_codepoint = code_points a.enc fuel m a
string_len fuel m a len_printchar = print_chars a.enc fuel m a
string_len fuel m a len_cstring = c_string a.enc fuel m a

pub string_c : ℕ → Mem → (base : ℕ) → Encoding → Option String
string_c fuel m base enc =
    elim (string_len fuel m (record { buf = buffer base 0 0; enc = enc }) len_cstring) [
      | none ↦ none
      | some n ↦ some (record { buf = buffer base n 0; enc = enc })
    ]
