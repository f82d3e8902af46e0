-- ===== src/Strings/Print/Decimal.antt =====
-- The decimal text of a number, by which the printing functions are judged, and its value.
use native.Mathlib.Decide.{ℕ_discrete}
use tiny_base.Base.{
  ℕ, zero, suc, ◌+◌, ◌*◌, ◌/◌, ◌%◌, ◌^◌, ◌<◌, ◌≤◌, ◌≡◌, ◌≢◌, ◌⊎◌, inl, inr, refl, sym, ap, ◌∙◌,
  arith, some, List, [], ◌∷◌, ◌==◌, ne→==, if◌then◌else◌,
}
use tiny_base.Strings.Number.Laws.{value, decimal_digit}

-- The digits of `n` before those of `tail`, down to the first that is not needed.
pub decimal_before : (fuel n : ℕ) → List ℕ → List ℕ
decimal_before zero n tail = tail
decimal_before (suc fuel) n tail =
    if n / 10 == 0
    then (n % 10 + 0x30) ∷ tail
    else decimal_before fuel (n / 10) ((n % 10 + 0x30) ∷ tail)

-- The decimal text of a word.
unfoldable pub decimal : ℕ → List ℕ
decimal n = decimal_before 20 n []

-- The `k` low digits of `n` before those of `tail`.
unfoldable pub low_digits : (k n : ℕ) → List ℕ → List ℕ
low_digits zero n tail = tail
low_digits (suc k) n tail = low_digits k (n / 10) ((n % 10 + 0x30) ∷ tail)

-- `n` has at most `k` digits.
abbrev pub Fits : ℕ → ℕ → Type 0
Fits zero n = n ≡ 0
Fits (suc k) n = Fits k (n / 10)

-- A bound that numbers of at most `k` digits stay below.
abbrev pub ten_to : ℕ → ℕ
ten_to zero = 1
ten_to (suc k) = 10 * ten_to k

digit_value : (n : ℕ) → decimal_digit (n % 10 + 0x30) ≡ some (n % 10)
unfolding decimal_digit
digit_value n = ground arith

value_round :
    (c d p : ℕ) (tail : List ℕ)
    → decimal_digit c ≡ some d
    → value 10 decimal_digit (c ∷ tail) p ≡ value 10 decimal_digit tail (p * 10 + d)
unfolding value
value_round c d p tail e = rw (value, e) refl

value-low_digits :
    (k n : ℕ) (tail : List ℕ)
    → Fits k n
    → value 10 decimal_digit (low_digits k n tail) 0 ≡ value 10 decimal_digit tail n
unfolding low_digits
value-low_digits zero n tail fits = rw fits refl
value-low_digits (suc k) n tail fits =
    value-low_digits k (n / 10) ((n % 10 + 0x30) ∷ tail) fits
    ∙ value_round (n % 10 + 0x30) (n % 10) (n / 10) tail (digit_value n)
    ∙ ap (value 10 decimal_digit tail) (omega arith)

-- What the two counts of digits share: the number has that many digits, at least one.
pub record Digits (most k n : ℕ) (tail : List ℕ) : Type 0 where
  pub positive : 1 ≤ k
  pub bound : k ≤ most
  pub fits : Fits k n
  pub lead : (k ≡ 1) ⊎ (ten_to k ≤ 10 * n)
  pub same : low_digits k n tail ≡ decimal_before most n tail

pub Digits-one : (most n : ℕ) (tail : List ℕ) → n / 10 ≡ 0 → Digits (suc most) 1 n tail
unfolding low_digits decimal_before
Digits-one most n tail e = record {
  positive = omega arith;
  bound = omega arith;
  fits = e;
  lead = inl refl;
  same = rw e refl;
}

pub Digits-more :
    (most k n : ℕ) (tail : List ℕ)
    → n / 10 ≢ 0
    → Digits most k (n / 10) ((n % 10 + 0x30) ∷ tail)
    → Digits (suc most) (suc k) n tail
unfolding low_digits decimal_before
Digits-more most k n tail ne d = record {
  positive = omega arith;
  bound = omega (arith, d.bound);
  fits = d.fits;
  lead = inr (more_lead d.lead);
  same = rw (ne→== (n / 10) 0 ne) d.same;
}
  where
    more_lead : (k ≡ 1) ⊎ (ten_to k ≤ 10 * (n / 10)) → ten_to (suc k) ≤ 10 * n
    more_lead (inl one) = rw one (omega arith)
    more_lead (inr le) = omega arith

-- A number below the bound has so many digits at most.
pub count :
    (most n : ℕ) (tail : List ℕ) → n < ten_to most → 1 ≤ most → (k : ℕ) × Digits most k n tail
count zero n tail small pos = absurd (omega arith)
count (suc zero) n tail small pos = (1, Digits-one 0 n tail (omega arith))
count (suc (suc most)) n tail small pos = elim (ℕ_discrete (n / 10) 0) [
  | yes e ↦ (1, Digits-one (suc most) n tail e)
  | no ne ↦
      let (k, d) = count (suc most) (n / 10) ((n % 10 + 0x30) ∷ tail) (omega arith) (omega arith) in
      (suc k, Digits-more (suc most) k n tail ne d)
]

-- The digits of the decimal text of a word have its value.
pub value-decimal : (n : ℕ) → n < 2 ^ 64 → value 10 decimal_digit (decimal n) 0 ≡ some n
unfolding decimal value
value-decimal n small =
    let (k, d) = count 20 n [] (omega arith) (omega arith) in
    ap (λ cs. value 10 decimal_digit cs 0) (sym d.same) ∙ value-low_digits k n [] d.fits
