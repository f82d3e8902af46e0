-- ===== src/Strings/Print.antt =====
-- Numbers written to strings: NumberOfDigits of src/tinybase-types.h, AppendUIntToString and
-- AppendIntToString of src/tinybase-strings.c. The array `Digits` stands in memory at the address
-- `local` during the call. `none` means that the fuel ran out.
pub mod Decimal
pub mod Digits
pub mod Array
pub mod Ends
pub mod Unsigned
pub mod Signed
pub mod Readable
pub mod RoundTrip
use tiny_base.Base.{
  ℕ, zero, suc, ◌+◌, ◌-◌, ◌*◌, ◌/◌, ◌%◌, ◌^◌, Bool, true, false, Option, none, some, ltb, leb, ◌==◌,
  if◌then◌else◌,
}
use tiny_base.Base.Word.{u8, add_usz, sub_usz, mul_usz}
use tiny_base.Mem.{Mem, store8, memset}
use tiny_base.Memory.{Buffer}
use tiny_base.Memory.Edit.{append_data_to_buffer}
use tiny_base.Encoding.{Encoding, ascii, utf8, utf16le, utf16be, utf32le, utf32be, unit_size}
use tiny_base.Strings.{String}

-- `Integer < 0`, `Integer / 10` and `Integer % 10` of an `isz`, on the word that holds it: C rounds
-- toward 0.
abbrev pub is_negative : ℕ → Bool
is_negative integer = leb (2 ^ 63) integer

abbrev pub isz_div10 : ℕ → ℕ
isz_div10 integer =
    if is_negative integer then sub_usz 0 ((2 ^ 64 - integer) / 10) else integer / 10

abbrev pub isz_rem10 : ℕ → ℕ
isz_rem10 integer =
    if is_negative integer then sub_usz 0 ((2 ^ 64 - integer) % 10) else integer % 10

-- Abs(Integer)
abbrev pub isz_abs : ℕ → ℕ
isz_abs integer = if is_negative integer then sub_usz 0 integer else integer

-- The loop of NumberOfDigits, which tests after its body.
pub digits_loop : ℕ → (integer count : ℕ) → Option ℕ
digits_loop zero integer count = none
digits_loop (suc fuel) integer count =
    let rest = digits_loop fuel (isz_div10 integer) (add_usz count 1) in
    if isz_div10 integer == 0 then some (add_usz count 1) else rest

-- The parameter is an `isz`, also where the caller has a `usz`.
pub number_of_digits : ℕ → (integer : ℕ) → Option ℕ
number_of_digits fuel integer = digits_loop fuel integer 0

-- The place of the digit in its character.
abbrev pub digit_offset : Encoding → ℕ
digit_offset utf32be = 3
digit_offset utf16be = 1
digit_offset _ = 0

-- `for (Digit = 0; Digit < NumDigits; Digit++)` over the digits left, of which the last is stored
-- first. `div10` and `rem10` are those of the type of `Integer`.
module _ (div10 rem10 : ℕ → ℕ) (enc : Encoding) (ptr : ℕ) where
  pub store_digits : (left : ℕ) → Mem → (integer : ℕ) → Mem
  store_digits zero m integer = m
  store_digits (suc left) m integer =
      store_digits left
        (store8 m (ptr + (left * unit_size enc + digit_offset enc)) (u8 (rem10 integer + 0x30)))
        (div10 integer)

abbrev pub usz_max_digits : ℕ
usz_max_digits = 20

-- `char Digits[USZ_MAX_DIGITS * 4] = {0}`
abbrev pub digits_array : Mem → (local : ℕ) → Mem
digits_array m local = memset m local 0 (usz_max_digits * 4)

pub append_uint_to_string :
    ℕ → (local : ℕ) → Mem → (integer : ℕ) → String → Option (Bool × Buffer × Mem)
append_uint_to_string fuel local m integer dst = elim (number_of_digits fuel integer) [
  | none ↦ none
  | some num_digits ↦
      let m' =
        store_digits (λ n. n / 10) (λ n. n % 10) dst.enc local num_digits (digits_array m local)
          integer in
      if leb num_digits (sub_usz dst.size dst.write_cur)
      then some (append_data_to_buffer m' local (mul_usz num_digits (unit_size dst.enc)) dst.buf)
      else some (false, dst.buf, m)
]

-- Where the number is negative: `Ptr[Offset] = '-'; Ptr += CharSize`
abbrev pub store_sign : Encoding → (local : ℕ) → Mem → (integer : ℕ) → ℕ × Mem
store_sign enc local m integer =
    if is_negative integer
    then (local + unit_size enc, store8 m (local + digit_offset enc) 0x2D)
    else (local, m)

pub append_int_to_string :
    ℕ → (local : ℕ) → Mem → (integer : ℕ) → String → Option (Bool × Buffer × Mem)
append_int_to_string fuel local m integer dst = elim (number_of_digits fuel integer) [
  | none ↦ none
  | some num_digits ↦
      let total_chars = add_usz num_digits (if is_negative integer then 1 else 0) in
      let (ptr, m1) = store_sign dst.enc local (digits_array m local) integer in
      let m2 = store_digits isz_div10 isz_rem10 dst.enc ptr num_digits m1 (isz_abs integer) in
      if leb total_chars (sub_usz dst.size dst.write_cur)
      then some (append_data_to_buffer m2 local (mul_usz total_chars (unit_size dst.enc)) dst.buf)
      else some (false, dst.buf, m)
]
