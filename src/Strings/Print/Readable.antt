-- ===== src/Strings/Print/Readable.antt =====
-- The texts of numbers as the reading functions take them.
use native.Mathlib.Decide.{dec_lt}
use tiny_base.Base.{
  ℕ, zero, suc, ◌+◌, ◌-◌, ◌/◌, ◌%◌, ◌^◌, ◌<◌, ◌≤◌, ◌≡◌, ◌≢◌, refl, ◌∙◌, arith, List, [], ◌∷◌,
  length, length-append, le→leb, lt→leb,
}
use tiny_base.Encoding.{Encoding, ascii, utf8, utf16le, utf16be, utf32le, utf32be}
use tiny_base.Encoding.Char.Spec.{encoded, CanEncode}
use tiny_base.Encoding.Char.Low.{length-encoded_low}
use tiny_base.Strings.{encoded_all}
use tiny_base.Strings.Transcode.Spec.{AllCan}
use tiny_base.Strings.Print.Decimal.{low_digits, decimal, count}
use tiny_base.Strings.Print.Ends.{units, length-low_digits}
use tiny_base.Strings.Print.Signed.{few_digits, int_text}

low_can : (enc : Encoding) (c : ℕ) → c < 0x80 → CanEncode enc c
low_can ascii c small = small
low_can utf8 c small = omega arith
low_can utf16le c small = omega arith
low_can utf16be c small = omega arith
low_can utf32le c small = omega arith
low_can utf32be c small = omega arith

low_digits-AllCan :
    (enc : Encoding) (k n : ℕ) (tail : List ℕ) → AllCan enc tail → AllCan enc (low_digits k n tail)
unfolding low_digits
low_digits-AllCan enc zero n tail can = can
low_digits-AllCan enc (suc k) n tail can =
    low_digits-AllCan enc k (n / 10) ((n % 10 + 0x30) ∷ tail)
      (low_can enc (n % 10 + 0x30) (omega arith), can)

length-digits : (k n : ℕ) (tail : List ℕ) → length (low_digits k n tail) ≡ k + length tail
unfolding low_digits
length-digits zero n tail = omega arith
length-digits (suc k) n tail = length-digits k (n / 10) ((n % 10 + 0x30) ∷ tail) ∙ omega arith

-- The first character is a digit.
abbrev pub StartsDigit : List ℕ → Type 0
StartsDigit cs = (c : ℕ) × (rest : List ℕ) × (cs ≡ c ∷ rest) × (c ≢ 0x2D)

low_digits-StartsDigit : (k n : ℕ) (tail : List ℕ) → 1 ≤ k → StartsDigit (low_digits k n tail)
unfolding low_digits
low_digits-StartsDigit zero n tail pos = absurd (omega arith)
low_digits-StartsDigit (suc zero) n tail pos =
    (n % 10 + 0x30, tail, refl, λ e. absurd (omega (arith, e)))
low_digits-StartsDigit (suc (suc k)) n tail pos =
    low_digits-StartsDigit (suc k) (n / 10) ((n % 10 + 0x30) ∷ tail) (omega arith)

-- What the reading functions need of a text that was printed.
pub record Readable (enc : Encoding) (text : List ℕ) : Type 0 where
  pub short : length text ≤ 20
  pub size : length (encoded_all enc text) ≤ 80
  pub can : AllCan enc text

pub decimal-Readable :
    (enc : Encoding) (n : ℕ) → n < 2 ^ 64 → Readable enc (decimal n) × StartsDigit (decimal n)
unfolding decimal
decimal-Readable enc n small =
    let (k, d) = count 20 n [] (omega arith) (omega arith) in
    let (low, high) = units enc k d.bound in
    let len = length-low_digits enc k n [] in
    let few = length-digits k n [] in
    let readable : Readable enc (low_digits k n []) = record {
      short = omega (arith, few, d.bound);
      size = omega (arith, len, high);
      can = low_digits-AllCan enc k n [] tt;
    } in
    (rw d.same at readable, rw d.same at (low_digits-StartsDigit k n [] d.positive))

signed_text-Readable : (enc : Encoding) (n : ℕ) → n < 2 ^ 63 → Readable enc (0x2D ∷ decimal n)
unfolding decimal
signed_text-Readable enc n small =
    let (k, d) = count 20 n [] (omega arith) (omega arith) in
    let bound = few_digits n k small d in
    let (low, high) = units enc (k + 1) (omega (arith, bound)) in
    let unit = length-encoded_low enc 0x2D (omega arith) in
    let len = length-low_digits enc k n [] in
    let split = length-append (encoded enc 0x2D) (encoded_all enc (low_digits k n [])) in
    let few = length-digits k n [] in
    let readable : Readable enc (0x2D ∷ low_digits k n []) = record {
      short = omega (arith, few, bound);
      size = omega (arith, len, split, unit, high);
      can = (low_can enc 0x2D (omega arith), low_digits-AllCan enc k n [] tt);
    } in
    rw d.same at readable

pub int_text-Readable :
    (enc : Encoding) (integer : ℕ)
    → integer < 2 ^ 64
    → integer ≢ 2 ^ 63
    → Readable enc (int_text integer)
int_text-Readable enc integer word least = elim (dec_lt integer (2 ^ 63)) [
  | yes small ↦ rw (lt→leb (2 ^ 63) integer small) (decimal-Readable enc integer (omega arith)).0
  | no negative ↦
      rw (le→leb (2 ^ 63) integer (omega arith))
        (signed_text-Readable enc (2 ^ 64 - integer) (omega (arith, least)))
]
