-- ===== src/Strings/Print/Unsigned.antt =====
-- AppendUIntToString appends the decimal text of a number.
use tiny_base.Base.{
  subst, ℕ, suc, ◌+◌, ◌-◌, ◌*◌, ◌/◌, ◌%◌, ◌^◌, ◌<◌, ◌≤◌, ◌≡◌, refl, sym, ◌∙◌, arith, some, [], ◌∷◌,
}
use tiny_base.Mem.{Mem}
use tiny_base.Memory.{IsWritable}
use tiny_base.Encoding.{unit_size}
use tiny_base.Strings.{String}
use tiny_base.Strings.Print.{number_of_digits, digits_array, store_digits, append_uint_to_string}
use tiny_base.Strings.Print.Decimal.{low_digits, decimal}
use tiny_base.Strings.Print.Digits.{one_digit, number_of_digits-Digits}
use tiny_base.Strings.Print.Array.{store_digits-Holds, store_digits-SameOutside}
use tiny_base.Strings.Print.Ends.{
  Printed, units, length-low_digits, print_end, array_zero, array_frame, same_array, uint_end,
}

-- The last `k` digits are appended where NumberOfDigits gives `k`.
uint_prints :
    (fuel local : ℕ) (m : Mem) (integer : ℕ) (dst : String) (k : ℕ)
    → number_of_digits fuel integer ≡ some k
    → k ≤ 20
    → IsWritable dst.buf
    → Printed local m dst (low_digits k integer []) (append_uint_to_string fuel local m integer dst)
uint_prints fuel local m integer dst k runs few w =
    let (low, high) = units dst.enc k few in
    let limit = integer + 1 in
    let m0 = digits_array m local in
    let m' = store_digits (λ n. n / 10) (λ n. n % 10) dst.enc local k m0 integer in
    let holds =
      store_digits-Holds limit (λ n. n / 10) (λ n. n % 10) (λ n lt. refl) (λ n lt. refl) dst.enc
        local k integer m0 [] (omega arith) (λ i lt. array_zero m local i (omega (arith, lt, high)))
        tt in
    let stored =
      store_digits-SameOutside limit (λ n. n / 10) (λ n. n % 10) (λ n lt. refl) (λ n lt. refl)
        dst.enc local k integer m0 in
    let frame =
      same_array local local (k * unit_size dst.enc) (array_frame m local) stored (omega arith)
        (omega (arith, high)) in
    let ends =
      print_end local m m' dst k (low_digits k integer []) w few frame holds
        (length-low_digits dst.enc k integer [] ∙ omega arith) in
    subst (Printed local m dst (low_digits k integer []))
      (sym (uint_end fuel local m integer dst k runs)) ends

-- AppendUIntToString of a number below 2^63 ends within 20 rounds of its count of digits. It appends
-- the decimal text of the number, in each of the six encodings, to a writable string where it fits,
-- and returns true; otherwise it returns false and leaves the string as it is.
pub append_uint_to_string-Printed :
    (fuel local : ℕ) (m : Mem) (integer : ℕ) (dst : String)
    → 20 ≤ fuel
    → integer < 2 ^ 63
    → IsWritable dst.buf
    → Printed local m dst (decimal integer) (append_uint_to_string fuel local m integer dst)
unfolding decimal
append_uint_to_string-Printed fuel local m integer dst enough small w =
    let (k, d, runs) = number_of_digits-Digits fuel integer [] enough small in
    rw d.same at (uint_prints fuel local m integer dst k runs d.bound w)

-- AppendUIntToString of one of the nine largest words appends the last digit of the number alone.
pub append_uint_to_string-largest :
    (fuel local : ℕ) (m : Mem) (integer : ℕ) (dst : String)
    → 2 ^ 64 - 9 ≤ integer
    → integer < 2 ^ 64
    → IsWritable dst.buf
    → Printed local m dst
        ((integer % 10 + 0x30) ∷ [])
        (append_uint_to_string (suc fuel) local m integer dst)
unfolding low_digits
append_uint_to_string-largest fuel local m integer dst large word w =
    uint_prints (suc fuel) local m integer dst 1 (one_digit fuel integer large word) (omega arith) w
