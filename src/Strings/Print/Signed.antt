-- ===== src/Strings/Print/Signed.antt =====
-- AppendIntToString appends the decimal text of a number with its sign.
use native.Mathlib.Decide.{dec_le, dec_lt}
use tiny_base.Base.{
  subst, ℕ, ◌+◌, ◌-◌, ◌*◌, ◌%◌, ◌^◌, ◌<◌, ◌≤◌, ◌≡◌, ◌≢◌, ◌⊎◌, inl, inr, refl, sym, ap, ap₂, ◌∙◌,
  arith, List, [], ◌∷◌, length-append, le→leb, lt→leb, ne→==, if◌then◌else◌,
}
use tiny_base.Mem.Laws.{store8-SameOutside}
use tiny_base.Mem.{Mem, store8, SameOutside}
use tiny_base.Memory.{IsWritable}
use tiny_base.Encoding.{unit_size}
use tiny_base.Encoding.Char.Spec.{encoded}
use tiny_base.Encoding.Char.Bytes.{Holds, Holds-same, Holds-append, Holds-join}
use tiny_base.Encoding.Char.Low.{length-encoded_low}
use tiny_base.Strings.{String, encoded_all}
use tiny_base.Strings.Print.{
  is_negative, isz_div10, isz_rem10, digit_offset, digits_array, store_digits, append_int_to_string,
}
use tiny_base.Strings.Print.Decimal.{ten_to, low_digits, decimal, Digits}
use tiny_base.Strings.Print.Digits.{
  number_of_digits-negative, div10_positive, number_of_digits-Digits,
}
use tiny_base.Strings.Print.Array.{
  offset_inside, stored_char, store_digits-Holds, store_digits-SameOutside,
}
use tiny_base.Strings.Print.Ends.{
  Printed, units, length-low_digits, print_end, array_zero, array_frame, same_array,
  int_end_positive, int_end_negative,
}

-- The decimal text of an `isz` that is held in a word.
abbrev pub int_text : ℕ → List ℕ
int_text integer =
    if is_negative integer then 0x2D ∷ decimal (2 ^ 64 - integer) else decimal integer

pub few_digits : (n k : ℕ) → n < 2 ^ 63 → Digits 20 k n [] → k ≤ 19
few_digits n k small d = bounded d.lead
  where
    top : 19 < k → (k ≡ 1) ⊎ (ten_to k ≤ 10 * n) → k ≤ 19
    top more (inl one) = omega arith
    top more (inr le) =
        let k20 : k ≡ 20 = omega (arith, d.bound) in let le20 = rw k20 at le in omega (arith, le20)

    bounded : (k ≡ 1) ⊎ (ten_to k ≤ 10 * n) → k ≤ 19
    bounded lead = elim (dec_le k 19) [ yes le ↦ le | no more ↦ top (omega arith) lead ]

isz_rem10_positive : (n : ℕ) → n < 2 ^ 63 → isz_rem10 n ≡ n % 10
isz_rem10_positive n small = rw (lt→leb (2 ^ 63) n small) refl

-- The digits behind what stands in the first `start` bytes of the array.
module _ (fuel local : ℕ) (m m1 : Mem) (n start : ℕ) (dst : String) (small : n < 2 ^ 63) where
  fill :
      (k : ℕ)
      → k * unit_size dst.enc + start ≤ 80
      → SameOutside local 80 m m1
      → ((i : ℕ) → i < k * unit_size dst.enc → m1 (local + start + i) ≡ 0)
      → SameOutside local 80 m (store_digits isz_div10 isz_rem10 dst.enc (local + start) k m1 n)
        × SameOutside
            (local + start)
            (k * unit_size dst.enc)
            m1
            (store_digits isz_div10 isz_rem10 dst.enc (local + start) k m1 n)
        × Holds
            (store_digits isz_div10 isz_rem10 dst.enc (local + start) k m1 n)
            (local + start)
            (encoded_all dst.enc (low_digits k n []))
  fill k fits frame zeros =
      let stored =
        store_digits-SameOutside (2 ^ 63) isz_div10 isz_rem10 div10_positive isz_rem10_positive
          dst.enc (local + start) k n m1 in
      (
        same_array local (local + start) (k * unit_size dst.enc) frame stored (omega arith)
            (omega (arith, fits)),
        stored,
        store_digits-Holds (2 ^ 63) isz_div10 isz_rem10 div10_positive isz_rem10_positive dst.enc
            (local + start) k n m1 [] small zeros tt,
      )

behind_sign :
    (m : Mem) (local unit off i : ℕ)
    → off < unit
    → unit + i < 80
    → store8 (digits_array m local) (local + off) 0x2D (local + unit + i) ≡ 0
behind_sign m local unit off i inside lt =
    ne→store8 ∙ ap (digits_array m local) (omega arith) ∙ array_zero m local (unit + i) lt
  where
    ne→store8 :
        store8 (digits_array m local) (local + off) 0x2D (local + unit + i)
        ≡ digits_array m local (local + unit + i)
    ne→store8 = rw (ne→== (local + unit + i) (local + off) (λ e. absurd (omega (arith, e)))) refl

int_positive :
    (fuel local : ℕ) (m : Mem) (integer : ℕ) (dst : String)
    → 20 ≤ fuel
    → integer < 2 ^ 63
    → IsWritable dst.buf
    → Printed local m dst (decimal integer) (append_int_to_string fuel local m integer dst)
unfolding decimal
int_positive fuel local m integer dst enough small w =
    let (k, d, runs) = number_of_digits-Digits fuel integer [] enough small in
    let (low, high) = units dst.enc k d.bound in
    let m0 = digits_array m local in
    let m' = store_digits isz_div10 isz_rem10 dst.enc local k m0 integer in
    let e : local + 0 ≡ local = omega arith in
    let (frame, stored, holds) = rw e at (
      fill fuel local m m0 integer 0 dst small k (omega (arith, high)) (array_frame m local)
        (λ i lt. rw e (array_zero m local i (omega (arith, lt, high))))) in
    let ends =
      print_end local m m' dst k (low_digits k integer []) w d.bound frame holds
        (length-low_digits dst.enc k integer [] ∙ omega arith) in
    subst (Printed local m dst (decimal integer))
      (sym (int_end_positive fuel local m integer dst k runs small d.bound)) (rw d.same at ends)

int_negative :
    (fuel local : ℕ) (m : Mem) (integer : ℕ) (dst : String)
    → 20 ≤ fuel
    → 2 ^ 63 < integer
    → integer < 2 ^ 64
    → IsWritable dst.buf
    → Printed local m dst
        (0x2D ∷ decimal (2 ^ 64 - integer))
        (append_int_to_string fuel local m integer dst)
unfolding decimal
int_negative fuel local m integer dst enough negative word w =
    let n = 2 ^ 64 - integer in
    let (k, d, runs) = number_of_digits-Digits fuel n [] enough (omega arith) in
    let few = few_digits n k (omega arith) d in
    let count = number_of_digits-negative fuel n (omega arith) (omega arith) ∙ runs in
    let back : 2 ^ 64 - n ≡ integer = omega arith in
    let m0 = digits_array m local in
    let m1 = store8 m0 (local + digit_offset dst.enc) 0x2D in
    let m' = store_digits isz_div10 isz_rem10 dst.enc (local + unit_size dst.enc) k m1 n in
    let unit = length-encoded_low dst.enc 0x2D (omega arith) in
    let (_, fits) = units dst.enc (k + 1) (omega (arith, few)) in
    let off = offset_inside dst.enc in
    let signed =
      stored_char m0 local 0x2D [] (omega arith) dst.enc
        (λ i lt. array_zero m local i (omega (arith, lt, fits))) tt in
    let frame1 =
      same_array local (local + digit_offset dst.enc) 1 (array_frame m local)
        (store8-SameOutside m0 (local + digit_offset dst.enc) 0x2D) (omega arith)
        (omega (arith, off, fits)) in
    let (frame, stored, holds) =
      fill fuel local m m1 n (unit_size dst.enc) dst (omega arith) k (omega (arith, fits)) frame1
        (λ i lt.
          behind_sign m local (unit_size dst.enc) (digit_offset dst.enc) i off
            (omega (arith, lt, fits))) in
    let sign =
      Holds-same m1 m' local (encoded dst.enc 0x2D)
        (λ x lo hi. stored x (inl (omega (arith, unit, hi))))
        (Holds-append m1 local (encoded dst.enc 0x2D) [] signed).0 in
    let text =
      Holds-join m' local (encoded dst.enc 0x2D) (encoded_all dst.enc (low_digits k n [])) sign
        (rw unit holds) in
    let len =
      length-append (encoded dst.enc 0x2D) (encoded_all dst.enc (low_digits k n []))
      ∙ ap₂ ◌+◌ unit (length-low_digits dst.enc k n []) in
    let ends =
      print_end local m m' dst (k + 1) (0x2D ∷ low_digits k n []) w (omega (arith, few)) frame text
        (len ∙ omega arith) in
    subst (Printed local m dst (0x2D ∷ decimal n))
      (sym (
        int_end_negative fuel local m integer dst k (rw back at count) (omega arith) word
          (omega (arith, few))))
      (rw d.same at ends)

-- AppendIntToString of a number that is not the least `isz` ends within 20 rounds of its count of
-- digits. It appends the decimal text of the number, behind a minus sign where it is negative, in
-- each of the six encodings, to a writable string where it fits, and returns true; otherwise it
-- returns false and leaves the string as it is.
pub append_int_to_string-Printed :
    (fuel local : ℕ) (m : Mem) (integer : ℕ) (dst : String)
    → 20 ≤ fuel
    → integer < 2 ^ 64
    → integer ≢ 2 ^ 63
    → IsWritable dst.buf
    → Printed local m dst (int_text integer) (append_int_to_string fuel local m integer dst)
append_int_to_string-Printed fuel local m integer dst enough word least w =
    elim (dec_lt integer (2 ^ 63)) [
      | yes small ↦
          rw (lt→leb (2 ^ 63) integer small) (int_positive fuel local m integer dst enough small w)
      | no negative ↦
          rw (le→leb (2 ^ 63) integer (omega arith))
            (int_negative fuel local m integer dst enough (omega (arith, least)) word w)
    ]
