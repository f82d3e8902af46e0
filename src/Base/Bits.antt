-- ===== src/Base/Bits.antt =====
-- `&` with a mask of adjoining ones, and `|` of numbers with no common bit, as arithmetic.
use Prim.Native.Nat.{
  ℕ, zero, suc, ◌+◌, ◌-◌, ◌*◌, ◌/◌, ◌%◌, ◌^◌, ◌≤◌, ◌<◌, min, max, bit_and, bit_or, digits, bitwise,
  bit_and-bitwise, bit_or-bitwise,
}
use mathlib.Core.Path.{◌≡◌, refl, ap, ◌∙◌, sym}
use native.Mathlib.Nat.{pow-suc, pow-succ', one-le-pow, div-div-eq-div-mul}
use native.Mathlib.Omega.{arith}

-- The native operations stand for a recursion on binary digits that is given enough fuel.
digits_enough :
    (rest : ℕ → ℕ) (op : ℕ → ℕ → ℕ) (f f' a b : ℕ)
    → a ≤ f
    → a ≤ f'
    → digits rest op f a b ≡ digits rest op f' a b
digits_enough rest op zero zero zero b _ _ = refl
digits_enough rest op zero (suc f') zero b _ _ = refl
digits_enough rest op (suc f) zero zero b _ _ = refl
digits_enough rest op (suc f) (suc f') zero b _ _ = refl
digits_enough rest op zero f' (suc a) b h _ = absurd (omega arith)
digits_enough rest op (suc f) zero (suc a) b _ h = absurd (omega arith)
digits_enough rest op (suc f) (suc f') (suc a) b h h' =
    ap (λ t. t * 2 + op (suc a % 2) (b % 2))
      (digits_enough rest op f f' (suc a / 2) (b / 2) (omega arith) (omega arith))

bitwise_halves :
    (rest : ℕ → ℕ) (op : ℕ → ℕ → ℕ) (a b : ℕ)
    → 0 < a
    → bitwise rest op a b ≡ bitwise rest op (a / 2) (b / 2) * 2 + op (a % 2) (b % 2)
bitwise_halves rest op zero b pos = absurd (omega arith)
bitwise_halves rest op (suc a) b pos =
    ap (λ t. t * 2 + op (suc a % 2) (b % 2))
      (digits_enough rest op a (suc a / 2) (suc a / 2) (b / 2) (omega arith) (omega arith))

pub and_halves : (a b : ℕ) → bit_and a b ≡ bit_and (a / 2) (b / 2) * 2 + min (a % 2) (b % 2)
and_halves zero b = rw (bit_and-bitwise 0 b, bit_and-bitwise 0 (b / 2)) (omega arith)
and_halves (suc a) b =
    rw (bit_and-bitwise (suc a) b, bit_and-bitwise (suc a / 2) (b / 2))
      (bitwise_halves (λ _. 0) min (suc a) b (omega arith))

or_halves : (a b : ℕ) → bit_or a b ≡ bit_or (a / 2) (b / 2) * 2 + max (a % 2) (b % 2)
or_halves zero b = rw (bit_or-bitwise 0 b, bit_or-bitwise 0 (b / 2)) (omega arith)
or_halves (suc a) b =
    rw (bit_or-bitwise (suc a) b, bit_or-bitwise (suc a / 2) (b / 2))
      (bitwise_halves (λ y. y) max (suc a) b (omega arith))

-- The recursion goes from `a / 2` to `a`; a bound on `a` falls with it.
and_zero_below : (f a : ℕ) → a ≤ f → bit_and a 0 ≡ 0
and_zero_below zero a h = let e : a ≡ 0 = omega arith in rw e
and_zero_below (suc f) zero h = refl
and_zero_below (suc f) (suc a) h =
    omega (arith, and_halves (suc a) 0, and_zero_below f (suc a / 2) (omega arith))

or_zero_below : (f a : ℕ) → a ≤ f → bit_or a 0 ≡ a
or_zero_below zero a h = let e : a ≡ 0 = omega arith in rw e
or_zero_below (suc f) zero h = refl
or_zero_below (suc f) (suc a) h =
    omega (arith, or_halves (suc a) 0, or_zero_below f (suc a / 2) (omega arith))

zero_and : (b : ℕ) → bit_and 0 b ≡ 0
zero_and b = bit_and-bitwise 0 b

and_comm_below : (f a b : ℕ) → a ≤ f → bit_and a b ≡ bit_and b a
and_comm_below zero a b h =
    let e : a ≡ 0 = omega arith in rw e (zero_and b ∙ sym (and_zero_below b b (omega arith)))
and_comm_below (suc f) zero b h = zero_and b ∙ sym (and_zero_below b b (omega arith))
and_comm_below (suc f) (suc a) b h = omega (
  arith,
  and_halves (suc a) b,
  and_halves b (suc a),
  and_comm_below f (suc a / 2) (b / 2) (omega arith),
)

pub bit_and_comm : (a b : ℕ) → bit_and a b ≡ bit_and b a
bit_and_comm a b = and_comm_below a a b (omega arith)

zero_or : (b : ℕ) → bit_or 0 b ≡ b
zero_or b = bit_or-bitwise 0 b

pub mod_unique : (d q r x : ℕ) → x ≡ q * d + r → r < d → x % d ≡ r
mod_unique d q r x e lt = grind arith

mod-double : (a p : ℕ) → 0 < p → a % (p * 2) ≡ a / 2 % p * 2 + a % 2
mod-double a p pos =
    mod_unique (p * 2) (a / 2 / p) (a / 2 % p * 2 + a % 2) a (omega arith) (omega arith)

pub and_low_ones : (k a : ℕ) → bit_and a (2 ^ k - 1) ≡ a % 2 ^ k
and_low_ones zero a = and_zero_below a a (omega arith) ∙ omega arith
and_low_ones (suc k) a =
    let pos = one-le-pow k 2 (omega arith) in
    let half : (2 ^ suc k - 1) / 2 ≡ 2 ^ k - 1 = omega (arith, pow-suc 2 k) in
    let odd : (2 ^ suc k - 1) % 2 ≡ 1 = omega (arith, pow-suc 2 k) in
    and_halves a (2 ^ suc k - 1)
    ∙ rw (half, odd, and_low_ones k (a / 2), pow-suc 2 k, mod-double a (2 ^ k) pos) (omega arith)

-- `&` with `k` ones from bit `s` on keeps that field of the number, where it stands.
pub bit_and-field : (k s a : ℕ) → bit_and a ((2 ^ k - 1) * 2 ^ s) ≡ a / 2 ^ s % 2 ^ k * 2 ^ s
bit_and-field k zero a =
    let e : (2 ^ k - 1) * 2 ^ 0 ≡ 2 ^ k - 1 = omega arith in
    let e' : a / 2 ^ 0 ≡ a = omega arith in rw (e, e', and_low_ones k a) (omega arith)
bit_and-field k (suc s) a =
    let half : (2 ^ k - 1) * 2 ^ suc s / 2 ≡ (2 ^ k - 1) * 2 ^ s = rw (pow-suc 2 s) (omega arith) in
    let even : (2 ^ k - 1) * 2 ^ suc s % 2 ≡ 0 = rw (pow-suc 2 s) (omega arith) in
    let quot : a / 2 ^ suc s ≡ a / 2 / 2 ^ s =
      rw (pow-succ' 2 s) (sym (div-div-eq-div-mul a 2 (2 ^ s))) in
    and_halves a ((2 ^ k - 1) * 2 ^ suc s)
    ∙ rw (half, even, bit_and-field k s (a / 2), quot, pow-suc 2 s) (omega arith)

-- `|` of a number below `2 ^ k` and a multiple of `2 ^ k` is their sum, in either order.
pub bit_or-field : (k q r : ℕ) → r < 2 ^ k → bit_or (q * 2 ^ k) r ≡ q * 2 ^ k + r
bit_or-field zero q r lt =
    let e : q * 2 ^ 0 ≡ q = omega arith in
    let e' : r ≡ 0 = omega arith in rw (e, e', or_zero_below q q (omega arith)) (omega arith)
bit_or-field (suc k) q r lt =
    let half : q * 2 ^ suc k / 2 ≡ q * 2 ^ k = rw (pow-suc 2 k) (omega arith) in
    let even : q * 2 ^ suc k % 2 ≡ 0 = rw (pow-suc 2 k) (omega arith) in
    or_halves (q * 2 ^ suc k) r
    ∙ rw (half, even, bit_or-field k q (r / 2) (omega (arith, pow-suc 2 k)), pow-suc 2 k)
        (omega arith)

pub bit_or-field_low : (k q r : ℕ) → r < 2 ^ k → bit_or r (q * 2 ^ k) ≡ q * 2 ^ k + r
bit_or-field_low zero q r lt =
    let e : q * 2 ^ 0 ≡ q = omega arith in
    let e' : r ≡ 0 = omega arith in rw (e, e', zero_or q) (omega arith)
bit_or-field_low (suc k) q r lt =
    let half : q * 2 ^ suc k / 2 ≡ q * 2 ^ k = rw (pow-suc 2 k) (omega arith) in
    let even : q * 2 ^ suc k % 2 ≡ 0 = rw (pow-suc 2 k) (omega arith) in
    or_halves r (q * 2 ^ suc k)
    ∙ rw (half, even, bit_or-field_low k q (r / 2) (omega (arith, pow-suc 2 k)), pow-suc 2 k)
        (omega arith)

-- The same where the multiple is a computed number.
pub bit_or-disjoint : (k s r : ℕ) → s % 2 ^ k ≡ 0 → r < 2 ^ k → bit_or s r ≡ s + r
bit_or-disjoint k s r e lt =
    let q : s / 2 ^ k * 2 ^ k ≡ s = omega arith in rw q at (bit_or-field k (s / 2 ^ k) r lt)
