-- ===== src/Strings/Print/Ends.antt =====
-- What the printing functions share: the array they start with, and how they end.
use tiny_base.Base.{
  subst, ℕ, zero, suc, ◌+◌, ◌-◌, ◌*◌, ◌/◌, ◌%◌, ◌^◌, ◌<◌, ◌≤◌, ◌≡◌, inl, inr, refl, ap, ◌∙◌, arith,
  Bool, Bool-cases, false, Option, some, List, ◌∷◌, length, length-append, leb, le→leb, lt→leb,
  if◌then◌else◌,
}
use tiny_base.Base.Word.{add_usz, sub_usz, mul_usz}
use tiny_base.Mem.{Mem, bytes, store8, SameOutside}
use tiny_base.Memory.{Buffer, IsWritable}
use tiny_base.Memory.Edit.{append_data_to_buffer}
use tiny_base.Memory.Edit.Spec.{Appends}
use tiny_base.Memory.Edit.Laws.{append_copy-Appends}
use tiny_base.Encoding.{Encoding, ascii, utf8, utf16le, utf16be, utf32le, utf32be, unit_size}
use tiny_base.Encoding.Char.Spec.{encoded}
use tiny_base.Encoding.Char.Bytes.{Holds, bytes-Holds}
use tiny_base.Encoding.Char.Low.{length-encoded_low}
use tiny_base.Strings.{String, encoded_all}
use tiny_base.Strings.Print.{
  number_of_digits, isz_div10, isz_rem10, digit_offset, digits_array, store_digits,
  append_uint_to_string, append_int_to_string,
}
use tiny_base.Strings.Print.Decimal.{low_digits}

-- A call ends, and appends the text to the string as memory is once the array `Digits` is filled.
abbrev pub Printed : (local : ℕ) → Mem → String → List ℕ → Option (Bool × Buffer × Mem) → Type 0
Printed local m dst text result =
    (m' : Mem) × (r : Bool × Buffer × Mem) × SameOutside local 80 m m'
    × (result ≡ some r)
    × Appends m' dst.buf (encoded_all dst.enc text) r

pub units : (enc : Encoding) (k : ℕ) → k ≤ 20 → (k ≤ k * unit_size enc) × (k * unit_size enc ≤ 80)
units ascii k le = omega arith
units utf8 k le = omega arith
units utf16le k le = omega arith
units utf16be k le = omega arith
units utf32le k le = omega arith
units utf32be k le = omega arith

pub length-low_digits :
    (enc : Encoding) (k n : ℕ) (tail : List ℕ)
    → length (encoded_all enc (low_digits k n tail))
      ≡ k * unit_size enc + length (encoded_all enc tail)
unfolding low_digits
length-low_digits enc zero n tail = omega arith
length-low_digits enc (suc k) n tail =
    let c = n % 10 + 0x30 in
    let here = length-encoded_low enc c (omega arith) in
    let split = length-append (encoded enc c) (encoded_all enc tail) in
    let rest = length-low_digits enc k (n / 10) (c ∷ tail) in omega (arith, here, split, rest)

-- What both functions do once the array holds the text of `total` characters.
pub print_end :
    (local : ℕ) (m m' : Mem) (dst : String) (total : ℕ) (text : List ℕ)
    → IsWritable dst.buf
    → total ≤ 20
    → SameOutside local 80 m m'
    → Holds m' local (encoded_all dst.enc text)
    → length (encoded_all dst.enc text) ≡ total * unit_size dst.enc
    → Printed local m dst text (
        if leb total (sub_usz dst.size dst.write_cur)
        then some (append_data_to_buffer m' local (mul_usz total (unit_size dst.enc)) dst.buf)
        else some (false, dst.buf, m))
print_end local m m' dst total text w few frame holds len =
    let (low, high) = units dst.enc total few in
    let size : mul_usz total (unit_size dst.enc) ≡ length (encoded_all dst.enc text) =
      omega (arith, len, high) in
    let text_bytes = bytes-Holds m' local (encoded_all dst.enc text) holds in
    elim (Bool-cases (leb total (sub_usz dst.size dst.write_cur))) [
      | inl t ↦ (
        m',
        append_data_to_buffer m' local (mul_usz total (unit_size dst.enc)) dst.buf,
        frame,
        rw t refl,
        subst
            (λ xs.
              Appends m' dst.buf xs
                (append_data_to_buffer m' local (mul_usz total (unit_size dst.enc)) dst.buf))
            (ap (bytes m' local) size ∙ text_bytes)
            (append_copy-Appends m' local (mul_usz total (unit_size dst.enc)) dst.buf w),
      )
      | inr f ↦
          let more : sub_usz dst.size dst.write_cur < total = ground (arith, f) in
          (
            m,
            (false, dst.buf, m),
            λ x out. refl,
            rw f refl,
            inr (record {
              full = omega (arith, len, low, more);
              failure = refl;
              same_buffer = refl;
              same_mem = refl;
            }),
          )
    ]

pub array_zero : (m : Mem) (local i : ℕ) → i < 80 → digits_array m local (local + i) ≡ 0
array_zero m local i lt = ground arith

pub array_frame : (m : Mem) (local : ℕ) → SameOutside local 80 m (digits_array m local)
array_frame m local x (inl l) = ground arith
array_frame m local x (inr r) = ground arith

-- Changes inside the array.
pub same_array :
    {m g h : Mem} (local a n : ℕ)
    → SameOutside local 80 m g
    → SameOutside a n g h
    → local ≤ a
    → a + n ≤ local + 80
    → SameOutside local 80 m h
same_array local a n p q lo hi x (inl l) = q x (inl (omega arith)) ∙ p x (inl l)
same_array local a n p q lo hi x (inr r) = q x (inr (omega arith)) ∙ p x (inr r)

-- What the functions return where NumberOfDigits gives `k`.
module _ (fuel local : ℕ) (m : Mem) (integer : ℕ) (dst : String) (k : ℕ)
    (runs : number_of_digits fuel integer ≡ some k) where
  pub uint_end : append_uint_to_string fuel local m integer dst ≡ (
      let m' =
        store_digits (λ n. n / 10) (λ n. n % 10) dst.enc local k (digits_array m local) integer in
      if leb k (sub_usz dst.size dst.write_cur)
      then some (append_data_to_buffer m' local (mul_usz k (unit_size dst.enc)) dst.buf)
      else some (false, dst.buf, m))
  unfolding append_uint_to_string
  uint_end = rw (append_uint_to_string, runs) refl

  pub int_end_positive :
      integer < 2 ^ 63
      → k ≤ 20
      → append_int_to_string fuel local m integer dst ≡ (
          let m' =
            store_digits isz_div10 isz_rem10 dst.enc local k (digits_array m local) integer in
          if leb k (sub_usz dst.size dst.write_cur)
          then some (append_data_to_buffer m' local (mul_usz k (unit_size dst.enc)) dst.buf)
          else some (false, dst.buf, m))
  unfolding append_int_to_string
  int_end_positive small few =
      let total : add_usz k 0 ≡ k = omega arith in
      rw (append_int_to_string, runs, lt→leb (2 ^ 63) integer small, total) refl

  pub int_end_negative :
      2 ^ 63 ≤ integer
      → integer < 2 ^ 64
      → k ≤ 20
      → append_int_to_string fuel local m integer dst ≡ (
          let m1 = store8 (digits_array m local) (local + digit_offset dst.enc) 0x2D in
          let m' =
            store_digits isz_div10 isz_rem10 dst.enc
              (local + unit_size dst.enc)
              k
              m1
              (2 ^ 64 - integer) in
          if leb (k + 1) (sub_usz dst.size dst.write_cur)
          then some (append_data_to_buffer m' local (mul_usz (k + 1) (unit_size dst.enc)) dst.buf)
          else some (false, dst.buf, m))
  unfolding append_int_to_string
  int_end_negative negative word few =
      let total : add_usz k 1 ≡ k + 1 = omega arith in
      let abs : sub_usz 0 integer ≡ 2 ^ 64 - integer = omega arith in
      rw (append_int_to_string, runs, le→leb (2 ^ 63) integer negative, total, abs) refl
