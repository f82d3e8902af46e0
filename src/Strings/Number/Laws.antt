-- ===== src/Strings/Number/Laws.antt =====
-- What the number functions return on a text, against the value of its digits as a natural number.
use native.Mathlib.Decide.{dec_le}
use tiny_base.Base.{
  ℕ, ◌+◌, ◌-◌, ◌*◌, ◌%◌, ◌^◌, ◌≤◌, ◌<◌, ◌≡◌, ◌⊎◌, inl, inr, refl, sym, ap, ◌∙◌, arith, Option, none,
  some, true, false, ◌&&◌, List, [], ◌∷◌, length, leb, le→leb, lt→leb, if◌then◌else◌,
}
use tiny_base.Mem.{Mem}
use tiny_base.Mem.Laws.{length-bytes}
use tiny_base.Memory.{contents, IsReadable}
use tiny_base.Encoding.Char.Bytes.{Holds-bytes}
use tiny_base.Strings.{String, encoded_all}
use tiny_base.Strings.Transcode.Spec.{AllCan}
use tiny_base.Strings.Number.{
  char_is_digit, char_is_hex_digit, add_digit, add_hex_digit, scan, finish, finish_all, usz_max,
  string_to_uint, string_to_hex,
}
use tiny_base.Strings.Number.Scan.{
  fold_text, fold_text-none, fold_text-some, TakesLow, scan-fold_text,
}

-- The value of a text in base `b` behind the digits of `n`; `none` where a character is no digit.
unfoldable pub value : (b : ℕ) → (digit : ℕ → Option ℕ) → List ℕ → (n : ℕ) → Option ℕ
value b digit [] n = some n
value b digit (c ∷ cs) n = elim (digit c) [ none ↦ none | some d ↦ value b digit cs (n * b + d) ]

unfoldable pub decimal_digit : ℕ → Option ℕ
decimal_digit c = if leb 0x30 c && leb c 0x39 then some (c - 0x30) else none

-- The digits to F, in upper case only.
pub upper_hex_digit : ℕ → Option ℕ
upper_hex_digit c =
    if leb 0x30 c && leb c 0x39
    then some (c - 0x30)
    else if leb 0x41 c && leb c 0x46
    then some (c - 0x41 + 10)
    else none

-- A value as a word, and the largest word where there is none.
unfoldable pub word_or_max : Option ℕ → ℕ
word_or_max none = usz_max
word_or_max (some n) = n % 2 ^ 64

-- A body that adds the digits of a text, as a word.
abbrev pub AddsDigits : ((result char : ℕ) → Option ℕ) → (b : ℕ) → (ℕ → Option ℕ) → ℕ → Type 0
AddsDigits add b digit c =
    ((digit c ≡ none) × ((n : ℕ) → add n c ≡ none))
    ⊎ ((d : ℕ) × (digit c ≡ some d) × ((n : ℕ) → add (n % 2 ^ 64) c ≡ some ((n * b + d) % 2 ^ 64)))

abbrev pub AllChars : (ℕ → Type 0) → List ℕ → Type 0
AllChars P [] = Unit {0}
AllChars P (c ∷ cs) = P c × AllChars P cs

fold_text-value :
    (add : (result char : ℕ) → Option ℕ) (b : ℕ) (digit : ℕ → Option ℕ) (cs : List ℕ) (n : ℕ)
    → AllChars (AddsDigits add b digit) cs
    → finish usz_max (λ r. r) (fold_text add cs (n % 2 ^ 64)) ≡ word_or_max (value b digit cs n)
unfolding finish fold_text value word_or_max
fold_text-value add b digit [] n all = refl
fold_text-value add b digit (c ∷ cs) n (inl (e, stops), all) =
    rw (fold_text-none add (n % 2 ^ 64) c cs (stops (n % 2 ^ 64)), value, e) refl
fold_text-value add b digit (c ∷ cs) n (inr (d, e, adds), all) =
    let later = fold_text-value add b digit cs (n * b + d) all in
    rw (fold_text-some add (n % 2 ^ 64) c cs ((n * b + d) % 2 ^ 64) (adds n), value, e) later

in_range :
    (lo hi c : ℕ)
    → ((lo ≤ c) × (c ≤ hi) × ((leb lo c && leb c hi) ≡ true))
      ⊎ (((c < lo) ⊎ (hi < c)) × ((leb lo c && leb c hi) ≡ false))
in_range lo hi c = elim (dec_le lo c) [
  | no low ↦ inr (inl (omega arith), rw (lt→leb lo c (omega arith)) refl)
  | yes l ↦ elim (dec_le c hi) [
    | no high ↦ inr (inr (omega arith), rw (le→leb lo c l, lt→leb c hi (omega arith)) refl)
    | yes h ↦ inl (l, h, rw (le→leb lo c l, le→leb c hi h) refl)
  ]
]

pub add_digit-AddsDigits : (c : ℕ) → AddsDigits add_digit 10 decimal_digit c
unfolding add_digit char_is_digit decimal_digit
add_digit-AddsDigits c = elim (in_range 0x30 0x39 c) [
  | inl (lo, hi, t) ↦ inr (c - 0x30, rw t refl, rw t (λ n. ap some (omega arith)))
  | inr (_, t) ↦ inl (rw t refl, rw t (λ n. refl))
]

pub add_digit-TakesLow : TakesLow add_digit
unfolding add_digit char_is_digit
add_digit-TakesLow result char r e = ground arith

-- Not a letter from a to f.
abbrev pub NotLowerHex : ℕ → Type 0
NotLowerHex c = (c < 0x61) ⊎ (0x66 < c)

no_lower : (c : ℕ) → NotLowerHex c → (leb 0x61 c && leb c 0x66) ≡ false
no_lower c (inl low) = rw (lt→leb 0x61 c low) refl
no_lower c (inr high) = rw (le→leb 0x61 c (omega arith), lt→leb c 0x66 high) refl

add_hex_digit-AddsDigits : (c : ℕ) → NotLowerHex c → AddsDigits add_hex_digit 16 upper_hex_digit c
unfolding add_hex_digit char_is_digit char_is_hex_digit upper_hex_digit
add_hex_digit-AddsDigits c not_lower = elim (in_range 0x30 0x39 c) [
  | inl (lo, hi, t) ↦ inr (c - 0x30, rw t refl, rw t (λ n. ap some (omega arith)))
  | inr (_, t) ↦ elim (in_range 0x41 0x46 c) [
    | inl (lo, hi, t') ↦
        inr (c - 0x41 + 10, rw (t, t') refl, rw (t, t') (λ n. ap some (omega arith)))
    | inr (_, t') ↦ inl (rw (t, t') refl, rw (t, t', no_lower c not_lower) (λ n. refl))
  ]
]

add_hex_digit-TakesLow : TakesLow add_hex_digit
unfolding add_hex_digit char_is_digit char_is_hex_digit
add_hex_digit-TakesLow result char r e = ground arith

AllChars-map :
    (P Q : ℕ → Type 0) (cs : List ℕ) → ((c : ℕ) → P c → Q c) → AllChars P cs → AllChars Q cs
AllChars-map P Q [] f all = _
AllChars-map P Q (c ∷ cs) f (here, later) = (f c here, AllChars-map P Q cs f later)

pub AllChars-each : (P : ℕ → Type 0) (cs : List ℕ) → ((c : ℕ) → P c) → AllChars P cs
AllChars-each P [] all = _
AllChars-each P (c ∷ cs) all = (all c, AllChars-each P cs all)

module _ (fuel : ℕ) (m : Mem) (src : String) (cs : List ℕ) (enough : length cs < fuel)
    (readable : IsReadable src.buf) (text : contents m src.buf ≡ encoded_all src.enc cs)
    (can : AllCan src.enc cs) where
  scan_text :
      (add : (result char : ℕ) → Option ℕ)
      → TakesLow add
      → scan add m src fuel 0 0 ≡ some (fold_text add cs 0)
  scan_text add low =
      let len : src.write_cur ≡ length (encoded_all src.enc cs) =
        sym (length-bytes m src.base src.write_cur) ∙ ap length text in
      let e : src.base + 0 ≡ src.base = omega arith in
      scan-fold_text add low m src fuel 0 0 cs enough can
        (rw e (Holds-bytes m src.base (encoded_all src.enc cs) (rw (← len) text)))
        (omega (arith, len)) (omega arith)

-- StringToUInt of a readable text ends within one round more than the text has characters. In every
-- encoding it returns the value of the decimal digits modulo 2^64, or USZ_MAX where a character of
-- the text is no digit.
pub string_to_uint_text :
    (fuel : ℕ) (m : Mem) (src : String) (cs : List ℕ)
    → length cs < fuel
    → IsReadable src.buf
    → contents m src.buf ≡ encoded_all src.enc cs
    → AllCan src.enc cs
    → string_to_uint fuel m src ≡ some (word_or_max (value 10 decimal_digit cs 0))
unfolding string_to_uint finish_all
string_to_uint_text fuel m src cs enough readable text can =
    rw (scan_text fuel m src cs enough readable text can add_digit add_digit-TakesLow) (
      ap some (
        fold_text-value add_digit 10 decimal_digit cs 0
          (AllChars-each (AddsDigits add_digit 10 decimal_digit) cs add_digit-AddsDigits)))

-- StringToHex of a readable text without a letter from a to f ends within one round more than the
-- text has characters. In every encoding it returns the value of the hexadecimal digits modulo
-- 2^64, or USZ_MAX where a character of the text is no digit.
pub string_to_hex_text :
    (fuel : ℕ) (m : Mem) (src : String) (cs : List ℕ)
    → length cs < fuel
    → IsReadable src.buf
    → contents m src.buf ≡ encoded_all src.enc cs
    → AllCan src.enc cs
    → AllChars NotLowerHex cs
    → string_to_hex fuel m src ≡ some (word_or_max (value 16 upper_hex_digit cs 0))
unfolding string_to_hex finish_all
string_to_hex_text fuel m src cs enough readable text can upper =
    rw (scan_text fuel m src cs enough readable text can add_hex_digit add_hex_digit-TakesLow) (
      ap some (
        fold_text-value add_hex_digit 16 upper_hex_digit cs 0 (
          AllChars-map NotLowerHex (AddsDigits add_hex_digit 16 upper_hex_digit) cs
            add_hex_digit-AddsDigits upper)))

-- StringToHex of a readable text that is one letter `c` from a to f, in any encoding, returns 32 more
-- than the value `c - 'a' + 10` of the digit.
pub string_to_hex_lower :
    (fuel : ℕ) (m : Mem) (src : String) (c : ℕ)
    → 1 < fuel
    → IsReadable src.buf
    → contents m src.buf ≡ encoded_all src.enc (c ∷ [])
    → AllCan src.enc (c ∷ [])
    → 0x61 ≤ c
    → c ≤ 0x66
    → string_to_hex fuel m src ≡ some (c - 0x61 + 10 + 32)
unfolding string_to_hex finish_all finish add_hex_digit char_is_digit char_is_hex_digit fold_text
string_to_hex_lower fuel m src c enough readable text can lo hi =
    let adds : add_hex_digit 0 c ≡ some (c - 0x61 + 10 + 32) =
      rw
        (
          le→leb 0x30 c (omega arith),
          lt→leb c 0x39 (omega arith),
          le→leb 0x41 c (omega arith),
          lt→leb c 0x46 (omega arith),
          le→leb 0x61 c lo,
          le→leb c 0x66 hi,
        )
        (ap some (omega arith)) in
    rw
      (
        scan_text fuel m src (c ∷ []) enough readable text can add_hex_digit add_hex_digit-TakesLow,
        fold_text-some add_hex_digit 0 c [] (c - 0x61 + 10 + 32) adds,
      )
      refl
