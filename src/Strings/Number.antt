-- ===== src/Strings/Number.antt =====
-- Numbers read from strings: StringToUInt, StringToInt and StringToHex of src/tinybase-strings.c.
pub mod Scan
pub mod Laws
pub mod Signed
use tiny_base.Base.{
  ℕ, zero, suc, ◌+◌, ◌-◌, ◌*◌, ◌%◌, ◌^◌, Bool, ◌&&◌, ◌||◌, Option, none, some, ltb, leb, ◌==◌,
  if◌then◌else◌,
}
use tiny_base.Base.Word.{add_usz, sub_usz, mul_usz}
use tiny_base.Mem.{Mem}
use tiny_base.Encoding.{unit_size}
use tiny_base.Encoding.Char.{get_next_char}
use tiny_base.Strings.{String}

unfoldable pub char_is_digit : ℕ → Bool
char_is_digit char = leb 0x30 char && leb char 0x39

unfoldable pub char_is_hex_digit : ℕ → Bool
char_is_hex_digit char =
    leb 0x30 char && leb char 0x39
    || (leb 0x41 char && leb char 0x46)
    || (leb 0x61 char && leb char 0x66)

-- The loop that the three functions share. `add` is its body: the new `Result`, or `none` where the
-- body returns. A result of `none` means that the fuel ran out, one of `some none` that the body
-- returned.
module _ (add : (result char : ℕ) → Option ℕ) (m : Mem) (src : String) where
  pub scan : ℕ → (idx result : ℕ) → Option (Option ℕ)
  scan zero idx result = none
  scan (suc fuel) idx result =
      let char = get_next_char m (src.base + idx) src.enc in
      if ltb idx src.write_cur
      then elim (add result char) [
        | none ↦ some none
        | some r ↦ scan fuel (add_usz idx (unit_size src.enc)) r
      ]
      else some (some result)

-- The words of `i64` and `u64` take the same sums and products; an `i64` that overflows, which C
-- leaves undefined, wraps here.
pub add_digit : (result char : ℕ) → Option ℕ
unfolding char_is_digit
add_digit result char =
    if char_is_digit char then some (sub_usz (add_usz (mul_usz result 10) char) 0x30) else none

pub add_hex_digit : (result char : ℕ) → Option ℕ
unfolding char_is_digit char_is_hex_digit
add_hex_digit result char =
    if char_is_digit char
    then some (sub_usz (add_usz (mul_usz result 16) char) 0x30)
    else if char_is_hex_digit char
    then some (add_usz (sub_usz (add_usz (mul_usz result 16) char) 0x41) 10)
    else none

-- What the functions return after their loops.
finish : (failed : ℕ) → (done : ℕ → ℕ) → Option ℕ → ℕ
finish failed done none = failed
finish failed done (some result) = done result

finish_all : (failed : ℕ) → (done : ℕ → ℕ) → Option (Option ℕ) → Option ℕ
unfolding finish
finish_all failed done none = none
finish_all failed done (some r) = some (finish failed done r)

-- USZ_MAX
abbrev pub usz_max : ℕ
usz_max = 2 ^ 64 - 1

-- ISZ_MAX
abbrev pub isz_max : ℕ
isz_max = 2 ^ 63 - 1

pub string_to_uint : ℕ → Mem → String → Option ℕ
unfolding finish_all
string_to_uint fuel m src = finish_all usz_max (λ r. r) (scan add_digit m src fuel 0 0)

pub string_to_hex : ℕ → Mem → String → Option ℕ
unfolding finish_all
string_to_hex fuel m src = finish_all usz_max (λ r. r) (scan add_hex_digit m src fuel 0 0)

-- The result is the word that holds the `isz`; the product with the sign wraps, where C leaves an
-- overflow undefined. The first character is read whatever the length.
pub string_to_int : ℕ → Mem → String → Option ℕ
unfolding finish_all
string_to_int fuel m src =
    let char = get_next_char m src.base src.enc in
    if char == 0x2D
    then finish_all isz_max (λ r. sub_usz 0 r) (scan add_digit m src fuel (unit_size src.enc) 0)
    else finish_all isz_max (λ r. r) (scan add_digit m src fuel 0 0)
