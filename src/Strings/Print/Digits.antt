-- ===== src/Strings/Print/Digits.antt =====
-- NumberOfDigits gives the length of the decimal text.
use native.Mathlib.Decide.{ℕ_discrete}
use tiny_base.Base.{
  ℕ, zero, suc, ◌+◌, ◌-◌, ◌/◌, ◌%◌, ◌^◌, ◌<◌, ◌≤◌, ◌≡◌, ◌≢◌, refl, sym, ap, ap₂, ◌∙◌, arith, some,
  List, ◌∷◌, ne→==, le→leb, lt→leb,
}
use tiny_base.Base.Word.{add_usz}
use tiny_base.Strings.Print.{digits_loop, number_of_digits, isz_div10}
use tiny_base.Strings.Print.Decimal.{Digits, Digits-one, Digits-more, ten_to}

module _ (fuel integer count : ℕ) where
  loop_end : isz_div10 integer ≡ 0 → digits_loop (suc fuel) integer count ≡ some (add_usz count 1)
  unfolding digits_loop
  loop_end e = rw e refl

  loop_round :
      isz_div10 integer ≢ 0
      → digits_loop (suc fuel) integer count
        ≡ digits_loop fuel (isz_div10 integer) (add_usz count 1)
  unfolding digits_loop
  loop_round ne = rw (ne→== (isz_div10 integer) 0 ne) refl

pub div10_positive : (n : ℕ) → n < 2 ^ 63 → isz_div10 n ≡ n / 10
div10_positive n small = rw (lt→leb (2 ^ 63) n small) refl

digits_loop_lem :
    (fuel most n count : ℕ) (tail : List ℕ)
    → most ≤ fuel
    → 1 ≤ most
    → n < ten_to most
    → n < 2 ^ 63
    → count + most < 2 ^ 64
    → (k : ℕ) × Digits most k n tail × (digits_loop fuel n count ≡ some (count + k))
digits_loop_lem zero most n count tail le pos small word room = absurd (omega arith)
digits_loop_lem (suc fuel) zero n count tail le pos small word room = absurd (omega arith)
digits_loop_lem (suc fuel) (suc most) n count tail le pos small word room =
    let div = div10_positive n word in
    let next : add_usz count 1 ≡ count + 1 = omega arith in
    elim (ℕ_discrete (n / 10) 0) [
      | yes e ↦ (1, Digits-one most n tail e, loop_end fuel n count (div ∙ e) ∙ ap some next)
      | no ne ↦
          let (k, d, runs) =
            digits_loop_lem fuel most (n / 10) (count + 1) ((n % 10 + 0x30) ∷ tail) (omega arith)
              (some_left most n small ne) (omega arith) (omega arith) (omega arith) in
          (
            suc k,
            Digits-more most k n tail ne d,
            loop_round fuel n count (λ e. ne (sym div ∙ e))
                ∙ ap₂ (digits_loop fuel) div next
                ∙ runs
                ∙ ap some (omega arith),
          )
    ]
  where
    some_left : (most n : ℕ) → n < ten_to (suc most) → n / 10 ≢ 0 → 1 ≤ most
    some_left zero n small ne = absurd (ne (omega arith))
    some_left (suc most) n small ne = omega arith

-- NumberOfDigits of a number that is not negative gives the length of its decimal text.
pub number_of_digits-Digits :
    (fuel n : ℕ) (tail : List ℕ)
    → 20 ≤ fuel
    → n < 2 ^ 63
    → (k : ℕ) × Digits 20 k n tail × (number_of_digits fuel n ≡ some k)
unfolding number_of_digits
number_of_digits-Digits fuel n tail le word =
    let (k, d, runs) =
      digits_loop_lem fuel 20 n 0 tail le (omega arith) (omega arith) word (omega arith) in
    (k, d, runs ∙ ap some (omega arith))

loop_zero : (a b count : ℕ) → digits_loop zero a count ≡ digits_loop zero b count
unfolding digits_loop
loop_zero a b count = refl

-- A negative number has as many digits as its absolute value.
digits_loop-isz_abs :
    (fuel n count : ℕ)
    → n < 2 ^ 63
    → 0 < n
    → digits_loop fuel (2 ^ 64 - n) count ≡ digits_loop fuel n count
digits_loop-isz_abs zero n count small pos = loop_zero (2 ^ 64 - n) n count
digits_loop-isz_abs (suc fuel) n count small pos =
    let div = div10_positive n small in
    elim (ℕ_discrete (n / 10) 0) [
      | yes e ↦
          let minus : isz_div10 (2 ^ 64 - n) ≡ 0 =
            rw (le→leb (2 ^ 63) (2 ^ 64 - n) (omega arith)) (omega arith) in
          loop_end fuel (2 ^ 64 - n) count minus ∙ sym (loop_end fuel n count (div ∙ e))
      | no ne ↦
          let minus : isz_div10 (2 ^ 64 - n) ≡ 2 ^ 64 - n / 10 =
            rw (le→leb (2 ^ 63) (2 ^ 64 - n) (omega arith)) (omega arith) in
          loop_round fuel (2 ^ 64 - n) count (λ e. absurd (omega (arith, e, minus)))
          ∙ ap (λ i. digits_loop fuel i (add_usz count 1)) minus
          ∙ digits_loop-isz_abs fuel (n / 10) (add_usz count 1) (omega arith) (omega arith)
          ∙ sym (
              loop_round fuel n count (λ e. ne (sym div ∙ e))
              ∙ ap (λ i. digits_loop fuel i (add_usz count 1)) div)
    ]

pub number_of_digits-negative :
    (fuel n : ℕ) → n < 2 ^ 63 → 0 < n → number_of_digits fuel (2 ^ 64 - n) ≡ number_of_digits fuel n
unfolding number_of_digits
number_of_digits-negative fuel n small pos = digits_loop-isz_abs fuel n 0 small pos

-- The parameter is signed: a word close to 2^64 counts as a small negative number.
pub one_digit :
    (fuel integer : ℕ)
    → 2 ^ 64 - 9 ≤ integer
    → integer < 2 ^ 64
    → number_of_digits (suc fuel) integer ≡ some 1
unfolding number_of_digits
one_digit fuel integer large word =
    loop_end fuel integer 0 (rw (le→leb (2 ^ 63) integer (omega arith)) (omega arith))
    ∙ ap some (omega arith)
