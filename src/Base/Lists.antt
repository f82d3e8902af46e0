-- ===== src/Base/Lists.antt =====
-- Lists measured and indexed by native numbers, under the library's names.
use Prim.Native.Nat.{ℕ, zero, suc, ◌+◌, ◌*◌, ◌≤◌}
use mathlib.Core.Path.{◌≡◌, refl, ap}
use mathlib.Core.List.{List, [], ◌∷◌, ◌++◌}
use native.Mathlib.Omega.{arith}

module _ {ℓ} {A : Type ℓ} where
  abbrev pub length : List A → ℕ
  length [] = 0
  length (x ∷ xs) = suc (length xs)

  -- `n` copies of a list, one after the other.
  abbrev pub repeat : ℕ → List A → List A
  repeat zero xs = []
  repeat (suc n) xs = xs ++ repeat n xs

  pub length-append : (xs ys : List A) → length (xs ++ ys) ≡ length xs + length ys
  length-append [] ys = omega arith
  length-append (x ∷ xs) ys = omega (arith, length-append xs ys)

  pub length-repeat : (n : ℕ) (xs : List A) → length (repeat n xs) ≡ n * length xs
  length-repeat zero xs = omega arith
  length-repeat (suc n) xs = omega (arith, length-append xs (repeat n xs), length-repeat n xs)

  -- `n` elements from index `i` on, or those that there are.
  abbrev pub slice : (i n : ℕ) → List A → List A
  slice zero zero xs = []
  slice zero (suc n) [] = []
  slice zero (suc n) (x ∷ xs) = x ∷ slice zero n xs
  slice (suc i) n [] = []
  slice (suc i) n (x ∷ xs) = slice i n xs

  pub length-slice : (i n : ℕ) (xs : List A) → i + n ≤ length xs → length (slice i n xs) ≡ n
  length-slice zero zero xs le = refl
  length-slice zero (suc n) [] le = absurd (omega arith)
  length-slice zero (suc n) (x ∷ xs) le = ap suc (length-slice zero n xs (omega arith))
  length-slice (suc i) n [] le = absurd (omega arith)
  length-slice (suc i) n (x ∷ xs) le = length-slice i n xs (omega arith)

  pub slice-length : (xs : List A) → slice 0 (length xs) xs ≡ xs
  slice-length [] = refl
  slice-length (x ∷ xs) = ap (λ ys. x ∷ ys) (slice-length xs)
