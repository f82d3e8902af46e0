-- ===== src/Queues/Ring/Modulo.antt =====
-- Cursors that wrap at a word's size, and slots that wrap at a power of two.
use tiny_base.Base.{
  ℕ, zero, suc, ◌+◌, ◌-◌, ◌*◌, ◌/◌, ◌%◌, ◌^◌, ◌≤◌, ◌<◌, ◌≡◌, sym, arith, bit_and, ◌∙◌, ap,
}
use tiny_base.Base.Bits.{bit_and-field}
use native.Mathlib.Nat.{mul-add-mod_self_left, pow-suc}

pow-split : (k j : ℕ) → 2 ^ (k + j) ≡ 2 ^ k * 2 ^ j
pow-split k zero = let e : k + 0 ≡ k = omega arith in rw e (omega arith)
pow-split k (suc j) =
    let e : k + suc j ≡ suc (k + j) = omega arith in
    rw (e, pow-suc 2 (k + j), pow-suc 2 j, pow-split k j) (grind arith)

mod-mod_of_product : (p q a : ℕ) → a % (p * q) % p ≡ a % p
mod-mod_of_product p q a =
    let s : a ≡ p * (q * (a / (p * q))) + a % (p * q) = grind arith in
    sym (ap (λ n. n % p) s ∙ mul-add-mod_self_left p (q * (a / (p * q))) (a % (p * q)))

-- A power of two up to `2 ^ 64` divides it, so wrapping a cursor does not move its slot.
mod-usz : (k a : ℕ) → k ≤ 64 → a % 2 ^ 64 % 2 ^ k ≡ a % 2 ^ k
mod-usz k a le =
    let e : k + (64 - k) ≡ 64 = omega arith in
    let word : 2 ^ 64 ≡ 2 ^ k * 2 ^ (64 - k) = ap (λ n. 2 ^ n) (sym e) ∙ pow-split k (64 - k) in
    ap (λ n. a % n % 2 ^ k) word ∙ mod-mod_of_product (2 ^ k) (2 ^ (64 - k)) a

pub bit_and-mask : (k a : ℕ) → k ≤ 64 → bit_and (a % 2 ^ 64) (2 ^ k - 1) ≡ a % 2 ^ k
bit_and-mask k a le =
    let e : (2 ^ k - 1) * 2 ^ 0 ≡ 2 ^ k - 1 = omega arith in
    let e' : a % 2 ^ 64 / 2 ^ 0 ≡ a % 2 ^ 64 = omega arith in
    rw (← e, bit_and-field k 0 (a % 2 ^ 64), e', mod-usz k a le) (omega arith)

-- Two slots less than one turn apart are different.
pub mod-add-injective : (n r i j : ℕ) → i < n → j < n → (r + i) % n ≡ (r + j) % n → i ≡ j
mod-add-injective n r i j li lj e = grind arith
