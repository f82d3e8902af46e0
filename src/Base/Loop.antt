-- ===== src/Base/Loop.antt =====
-- Search loops with an early return, and what they find.
use Prim.Native.Nat.{ℕ, zero, suc, ◌+◌, ◌≤◌, ◌<◌}
use mathlib.Core.Path.{◌≡◌, refl, sym, ◌∙◌}
use mathlib.Core.Bool.{Bool, true, false}
use mathlib.Core.Option.{Option, none, some}
use mathlib.Core.Logic.{inl, inr}
use native.Mathlib.Omega.{arith}
use tiny_base.Base.Tests.{if◌then◌else◌, Bool-cases, Option-cases}

module _ (p : ℕ → Bool) where
  -- `for (; i < i + left; i++) if (p(i)) return i;`, with `none` where the loop runs to its end.
  unfoldable pub search_up : ℕ → ℕ → Option ℕ
  search_up zero i = none
  search_up (suc left) i = let rest = search_up left (i + 1) in if p i then some i else rest

  -- `for (; i > 0; i--) if (p(i)) return i;`, with `none` where the loop runs to its end.
  pub search_down : ℕ → Option ℕ
  search_down zero = none
  search_down (suc i) = let rest = search_down i in if p (suc i) then some (suc i) else rest

-- The option holds the least index in `[lo, hi)` that passes the test, if one does.
abbrev pub IsFirst : (ℕ → Bool) → ℕ → ℕ → Option ℕ → Type 0
IsFirst p lo hi none = (j : ℕ) → lo ≤ j → j < hi → p j ≡ false
IsFirst p lo hi (some i) =
    (lo ≤ i) × (i < hi) × (p i ≡ true) × ((j : ℕ) → lo ≤ j → j < i → p j ≡ false)

-- The option holds the greatest index in `[lo, hi)` that passes the test, if one does.
abbrev pub IsLast : (ℕ → Bool) → ℕ → ℕ → Option ℕ → Type 0
IsLast p lo hi none = (j : ℕ) → lo ≤ j → j < hi → p j ≡ false
IsLast p lo hi (some i) =
    (lo ≤ i) × (i < hi) × (p i ≡ true) × ((j : ℕ) → i < j → j < hi → p j ≡ false)

module _ (p : ℕ → Bool) where
  IsFirst-skip :
      (lo hi : ℕ) (o : Option ℕ) → p lo ≡ false → IsFirst p (lo + 1) hi o → IsFirst p lo hi o
  IsFirst-skip lo hi none e h = λ j a b. grind (arith, h j)
  IsFirst-skip lo hi (some i) e h = (omega arith, h.1, h.2, λ j a b. grind (arith, h.3 j))

  pub search_up-IsFirst : (left lo hi : ℕ) → lo + left ≡ hi → IsFirst p lo hi (search_up p left lo)
  unfolding search_up
  search_up-IsFirst zero lo hi e = λ j a b. absurd (omega arith)
  search_up-IsFirst (suc left) lo hi e = elim (Bool-cases (p lo)) [
    | inl t ↦ rw t (omega arith, omega arith, t, λ j a b. absurd (omega arith))
    | inr f ↦ rw f (IsFirst-skip lo hi _ f (search_up-IsFirst left (lo + 1) hi (omega arith)))
  ]

  IsLast-suc :
      (i : ℕ) (o : Option ℕ) → p (suc i) ≡ false → IsLast p 1 (i + 1) o → IsLast p 1 (suc i + 1) o
  IsLast-suc i none f h = λ j a b. grind (arith, h j)
  IsLast-suc i (some k) f h = (h.0, omega arith, h.2, λ j a b. grind (arith, h.3 j))

  -- The loop leaves index 0 untested: it searches `[1, i]`.
  search_down-IsLast_suc : (i : ℕ) → IsLast p 1 (i + 1) (search_down p i)
  unfolding search_down
  search_down-IsLast_suc zero = λ j a b. absurd (omega arith)
  search_down-IsLast_suc (suc i) = elim (Bool-cases (p (suc i))) [
    | inl t ↦ rw t (omega arith, omega arith, t, λ j a b. absurd (omega arith))
    | inr f ↦ rw f (IsLast-suc i (search_down p i) f (search_down-IsLast_suc i))
  ]

  pub search_down-IsLast : (i hi : ℕ) → i + 1 ≡ hi → IsLast p 1 hi (search_down p i)
  search_down-IsLast i hi e = rw (← e) (search_down-IsLast_suc i)

  -- The loop over a part of the range, and over the rest where nothing is found.
  pub search_up_found : (a b lo i : ℕ) → search_up p a lo ≡ some i → search_up p (a + b) lo ≡ some i
  unfolding search_up
  search_up_found zero b lo i e = absurd (ground arith)
  search_up_found (suc a) b lo i e =
      let s : suc a + b ≡ suc (a + b) = omega arith in
      elim (Bool-cases (p lo)) [
        | inl t ↦ rw (s, t) (rw t at e)
        | inr f ↦ rw (s, f) (search_up_found a b (lo + 1) i (rw f at e))
      ]

  pub search_up_missed :
      (a b lo : ℕ) → search_up p a lo ≡ none → search_up p (a + b) lo ≡ search_up p b (lo + a)
  unfolding search_up
  search_up_missed zero b lo e =
      let z : 0 + b ≡ b = omega arith in let z' : lo + 0 ≡ lo = omega arith in rw (z, z') refl
  search_up_missed (suc a) b lo e =
      let s : suc a + b ≡ suc (a + b) = omega arith in
      let s' : lo + suc a ≡ lo + 1 + a = omega arith in
      elim (Bool-cases (p lo)) [
        | inl t ↦ absurd (ground arith)
        | inr f ↦ rw (s, s', f) (search_up_missed a b (lo + 1) (rw f at e))
      ]

  pub search_up-none :
      (left lo : ℕ) → ((j : ℕ) → lo ≤ j → j < lo + left → p j ≡ false) → search_up p left lo ≡ none
  unfolding search_up
  search_up-none zero lo h = refl
  search_up-none (suc left) lo h =
      let rest = search_up-none left (lo + 1) (λ j a b. h j (omega arith) (omega arith)) in
      rw (h lo (omega arith) (omega arith)) rest

  -- Tests that fail behind `n` places may be left out.
  pub search_up_upto :
      (n r lo : ℕ)
      → ((j : ℕ) → lo + n ≤ j → j < lo + n + r → p j ≡ false)
      → search_up p (n + r) lo ≡ search_up p n lo
  search_up_upto n r lo h = elim (Option-cases (search_up p n lo)) [
    | inl e ↦ search_up_missed n r lo e ∙ search_up-none r (lo + n) h ∙ sym e
    | inr (i, e) ↦ search_up_found n r lo i e ∙ sym e
  ]

-- The same tests under other numbers.
pub search_up_ext :
    (p q : ℕ → Bool) (left lo : ℕ)
    → ((j : ℕ) → lo ≤ j → j < lo + left → p j ≡ q j)
    → search_up p left lo ≡ search_up q left lo
unfolding search_up
search_up_ext p q zero lo h = refl
search_up_ext p q (suc left) lo h =
    let rest = search_up_ext p q left (lo + 1) (λ j a b. h j (omega arith) (omega arith)) in
    rw (h lo (omega arith) (omega arith), rest) refl

-- `c` added to the index that an option holds
abbrev pub add_idx : ℕ → Option ℕ → Option ℕ
add_idx c none = none
add_idx c (some i) = some (c + i)

pub search_up_shift :
    (p : ℕ → Bool) (c left lo : ℕ)
    → search_up p left (c + lo) ≡ add_idx c (search_up (λ i. p (c + i)) left lo)
unfolding search_up
search_up_shift p c zero lo = refl
search_up_shift p c (suc left) lo =
    let e : c + lo + 1 ≡ c + (lo + 1) = omega arith in
    elim (Bool-cases (p (c + lo))) [
      | inl t ↦ rw t refl
      | inr f ↦ rw (f, e) (search_up_shift p c left (lo + 1))
    ]
