-- ===== src/Strings/Number/Signed.antt =====
-- StringToInt on a text with or without a sign.
use tiny_base.Base.{
  Bool, true, false, Bool-cases, leb, ltb, ◌&&◌, ◌-◌, subst, ℕ, ◌+◌, ◌*◌, ◌%◌, ◌^◌, ◌<◌, ◌≡◌, ◌≢◌,
  inl, inr, refl, sym, ap, ◌∙◌, arith, Option, none, some, List, [], ◌∷◌, length, length-append,
  ◌==◌, ne→==, if◌then◌else◌,
}
use tiny_base.Base.Word.{sub_usz}
use tiny_base.Mem.{Mem}
use tiny_base.Mem.Laws.{length-bytes}
use tiny_base.Memory.{contents, IsReadable}
use tiny_base.Encoding.{unit_size}
use tiny_base.Encoding.Char.{get_next_char}
use tiny_base.Encoding.Char.Spec.{encoded}
use tiny_base.Encoding.Char.Low.{encode_char_low, encode_char_of_low, length-encoded_low}
use tiny_base.Encoding.Char.Bytes.{Holds, Holds-bytes, Holds-append}
use tiny_base.Encoding.Char.Reads.{ReadsAs}
use tiny_base.Encoding.Char.Laws.{encoded-ReadsAs}
use tiny_base.Strings.{String, encoded_all}
use tiny_base.Strings.Transcode.Spec.{AllCan}
use tiny_base.Strings.Number.{add_digit, finish, finish_all, isz_max, string_to_int}
use tiny_base.Strings.Number.Scan.{fold_text, fold_text-none, fold_text-some, scan-fold_text}
use tiny_base.Strings.Number.Laws.{
  value, decimal_digit, AllChars, AddsDigits, AllChars-each, add_digit-AddsDigits,
  add_digit-TakesLow,
}
use native.Mathlib.Decide.{ℕ_discrete}

-- The value of a text with a sign, modulo 2^64, as the word of a signed number, and ISZ_MAX where there is none.
unfoldable pub signed_or_max : (done : ℕ → ℕ) → Option ℕ → ℕ
signed_or_max done none = isz_max
signed_or_max done (some n) = done (n % 2 ^ 64)

unfoldable pub int_value : List ℕ → ℕ
int_value [] = 0
int_value (c ∷ cs) =
    if c == 0x2D
    then signed_or_max (λ n. sub_usz 0 n) (value 10 decimal_digit cs 0)
    else signed_or_max (λ n. n) (value 10 decimal_digit (c ∷ cs) 0)

fold_text-signed :
    (done : ℕ → ℕ) (cs : List ℕ) (n : ℕ)
    → AllChars (AddsDigits add_digit 10 decimal_digit) cs
    → finish isz_max done (fold_text add_digit cs (n % 2 ^ 64))
      ≡ signed_or_max done (value 10 decimal_digit cs n)
unfolding finish fold_text value signed_or_max
fold_text-signed done [] n all = refl
fold_text-signed done (c ∷ cs) n (inl (e, stops), all) =
    rw (fold_text-none add_digit (n % 2 ^ 64) c cs (stops (n % 2 ^ 64)), value, e) refl
fold_text-signed done (c ∷ cs) n (inr (d, e, adds), all) =
    let later = fold_text-signed done cs (n * 10 + d) all in
    rw (fold_text-some add_digit (n % 2 ^ 64) c cs ((n * 10 + d) % 2 ^ 64) (adds n), value, e) later

-- With sums and products that wrap, StringToInt gives the value modulo 2^64.
pub string_to_int_word :
    (fuel : ℕ) (m : Mem) (src : String) (c : ℕ) (cs : List ℕ)
    → length (c ∷ cs) < fuel
    → IsReadable src.buf
    → contents m src.buf ≡ encoded_all src.enc (c ∷ cs)
    → AllCan src.enc (c ∷ cs)
    → string_to_int fuel m src ≡ some (int_value (c ∷ cs))
unfolding string_to_int finish_all int_value
string_to_int_word fuel m src c cs enough readable text can = elim (ℕ_discrete c 0x2D) [
  | yes e ↦
      let minus : get_next_char m src.base src.enc ≡ 0x2D =
        reads.next_char ∙ encode_char_of_low src.enc c (omega arith) ∙ e in
      let unit = length-encoded_low src.enc c (omega arith) in
      let after =
        scan-fold_text add_digit add_digit-TakesLow m src fuel (unit_size src.enc) 0 cs
          (omega arith) can.1 (rw (← unit) parts.1) (omega (arith, len, split, unit))
          (omega arith) in
      rw (minus, e, after) (ap some (fold_text-signed (λ n. sub_usz 0 n) cs 0 (all cs)))
  | no ne ↦
      let other : get_next_char m src.base src.enc ≢ 0x2D = λ e.
        let code = sym reads.next_char ∙ e in
        ne (sym (encode_char_low src.enc c can.0 (omega arith)) ∙ code) in
      let e0 : src.base + 0 ≡ src.base = omega arith in
      let whole =
        scan-fold_text add_digit add_digit-TakesLow m src fuel 0 0 (c ∷ cs) enough can (rw e0 holds)
          (omega (arith, len)) (omega arith) in
      rw (ne→== (get_next_char m src.base src.enc) 0x2D other, ne→== c 0x2D ne, whole)
        (ap some (fold_text-signed (λ n. n) (c ∷ cs) 0 (all (c ∷ cs))))
]
  where
    all : (xs : List ℕ) → AllChars (AddsDigits add_digit 10 decimal_digit) xs
    all xs = AllChars-each (AddsDigits add_digit 10 decimal_digit) xs add_digit-AddsDigits

    len : src.write_cur ≡ length (encoded_all src.enc (c ∷ cs))
    len = sym (length-bytes m src.base src.write_cur) ∙ ap length text

    split :
        length (encoded_all src.enc (c ∷ cs))
        ≡ length (encoded src.enc c) + length (encoded_all src.enc cs)
    split = length-append (encoded src.enc c) (encoded_all src.enc cs)

    holds : Holds m src.base (encoded_all src.enc (c ∷ cs))
    holds = Holds-bytes m src.base (encoded_all src.enc (c ∷ cs)) (rw (← len) text)

    parts :
        Holds m src.base (encoded src.enc c)
        × Holds m (src.base + length (encoded src.enc c)) (encoded_all src.enc cs)
    parts = Holds-append m src.base (encoded src.enc c) (encoded_all src.enc cs) holds

    reads : ReadsAs m src.base src.enc c
    reads = encoded-ReadsAs m src.base src.enc c can.0 parts.0

-- No step of the loop overflows an `isz`, from a number `n` on: neither the product nor the sum with
-- the code of the character, before the code of the digit 0 is taken off.
unfoldable pub NoOverflow : List ℕ → (n : ℕ) → Type 0
NoOverflow [] n = Unit
NoOverflow (c ∷ cs) n = elim (decimal_digit c) [
  | none ↦ Unit
  | some d ↦ (n * 10 + c < 2 ^ 63) × NoOverflow cs (n * 10 + d)
]

NoOverflow-value :
    (cs : List ℕ) (n v : ℕ)
    → n < 2 ^ 63
    → NoOverflow cs n
    → value 10 decimal_digit cs n ≡ some v
    → v < 2 ^ 63
unfolding value NoOverflow decimal_digit
NoOverflow-value [] n v small fine e =
    let same : n ≡ v = ap (λ o. elim o [ none ↦ 0 | some x ↦ x ]) e in omega arith
NoOverflow-value (c ∷ cs) n v small fine e = elim (Bool-cases (leb 0x30 c && leb c 0x39)) [
  | inl t ↦
      let (step, later) = rw (NoOverflow, decimal_digit, t) at fine in
      NoOverflow-value cs (n * 10 + (c - 0x30)) v (omega arith) later
        (rw (value, decimal_digit, t) at e)
  | inr f ↦ absurd (none-some (rw (value, decimal_digit, f) at e))
]
  where
    none-some : {v : ℕ} → none ≡ some v → ⊥
    none-some e = subst (λ o. elim o [ none ↦ Unit | some _ ↦ ⊥ ]) e tt

-- The word of a signed number, and ISZ_MAX where there is none.
unfoldable pub word_of_int : (negative : Bool) → Option ℕ → ℕ
word_of_int negative none = isz_max
word_of_int negative (some n) = if negative && ltb 0 n then 2 ^ 64 - n else n

-- Without overflow the words that wrap are the numbers.
signed-word :
    (negative : Bool) (cs : List ℕ)
    → NoOverflow cs 0
    → signed_or_max (λ n. if negative then sub_usz 0 n else n) (value 10 decimal_digit cs 0)
      ≡ word_of_int negative (value 10 decimal_digit cs 0)
unfolding signed_or_max word_of_int
signed-word negative cs fine = by_value negative (value 10 decimal_digit cs 0) refl
  where
    by_value :
        (negative : Bool) (o : Option ℕ)
        → value 10 decimal_digit cs 0 ≡ o
        → signed_or_max (λ n. if negative then sub_usz 0 n else n) o ≡ word_of_int negative o
    by_value negative none e = refl
    by_value true (some v) e =
        let small = NoOverflow-value cs 0 v (omega arith) fine e in ground arith
    by_value false (some v) e =
        let small = NoOverflow-value cs 0 v (omega arith) fine e in omega arith

int_value-word :
    (c : ℕ) (cs : List ℕ)
    → NoOverflow (if c == 0x2D then cs else c ∷ cs) 0
    → int_value (c ∷ cs)
      ≡ word_of_int (c == 0x2D) (value 10 decimal_digit (if c == 0x2D then cs else c ∷ cs) 0)
unfolding int_value
int_value-word c cs fine = elim (Bool-cases (c == 0x2D)) [
  | inl t ↦ rw t (signed-word true cs (rw t at fine))
  | inr f ↦ rw f (signed-word false (c ∷ cs) (rw f at fine))
]

-- StringToInt of a readable text that is not empty, where no step of its loop overflows, ends within
-- one round more than the text has characters. In every encoding it returns the value of the
-- decimal digits, negated where a minus sign comes first, as a word of 64 bits, or ISZ_MAX where
-- another character of the text is no digit.
pub string_to_int_text :
    (fuel : ℕ) (m : Mem) (src : String) (c : ℕ) (cs : List ℕ)
    → length (c ∷ cs) < fuel
    → IsReadable src.buf
    → contents m src.buf ≡ encoded_all src.enc (c ∷ cs)
    → AllCan src.enc (c ∷ cs)
    → NoOverflow (if c == 0x2D then cs else c ∷ cs) 0
    → string_to_int fuel m src
      ≡ some (word_of_int (c == 0x2D) (value 10 decimal_digit (if c == 0x2D then cs else c ∷ cs) 0))
string_to_int_text fuel m src c cs enough readable text can fine =
    string_to_int_word fuel m src c cs enough readable text can ∙ ap some (int_value-word c cs fine)
