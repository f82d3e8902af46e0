-- ===== src/Queues/Ring/Init.antt =====
-- InitMPMCRingBuffer rounds the size down to a power of two.
use tiny_base.Base.{
  ℕ, suc, ◌+◌, ◌-◌, ◌*◌, ◌/◌, ◌%◌, ◌^◌, ◌≤◌, ◌<◌, ◌≡◌, ◌≢◌, refl, arith, lt→ltb, ne→==,
}
use tiny_base.Queues.Ring.{round_down_to_pow2, init_mpmc_ring_buffer}
use native.Mathlib.Decide.{dec_lt}
use native.Mathlib.Nat.{one-le-pow, pow-suc, pow-le-pow_right}

-- What GCC documents of `__builtin_clzl`: the number of zeros in front of the highest one of a
-- 64-bit word that is not zero.
pub record ClzLaw (clz : ℕ → ℕ) : Type 0 where
  pub bound : (x : ℕ) → 0 < x → x < 2 ^ 64 → clz x < 64
  pub below : (x : ℕ) → 0 < x → x < 2 ^ 64 → x < 2 ^ (64 - clz x)
  pub above : (x : ℕ) → 0 < x → x < 2 ^ 64 → 2 ^ (63 - clz x) ≤ x

pub pow_narrow : (k b : ℕ) → 2 ^ k < 2 ^ b → k < b
pow_narrow k b lt = elim (dec_lt k b) [
  | yes l ↦ l
  | no ge ↦
      let le : b ≤ k = omega arith in
      absurd (omega (arith, pow-le-pow_right {n = 2} (omega arith) {i = b} {j = k} le))
]

pow_apart : (a b x : ℕ) → 2 ^ a ≤ x → x < 2 ^ suc b → a ≤ b
pow_apart a b x lo hi = omega (arith, pow_narrow a (suc b) (omega arith))

round_down_to_pow2_lem :
    (clz : ℕ → ℕ) (x j : ℕ)
    → ClzLaw clz
    → x < 2 ^ 31
    → 2 ^ j ≤ x
    → x < 2 ^ suc j
    → round_down_to_pow2 clz x ≡ 2 ^ j
unfolding round_down_to_pow2
round_down_to_pow2_lem clz x j law small lo hi =
    let pos = one-le-pow j 2 (omega arith) in
    let z : clz x < 64 = law.bound x (omega arith) (omega arith) in
    let e : 64 - clz x ≡ suc (63 - clz x) = omega arith in
    let down = pow_apart j (63 - clz x) x lo (rw (← e) (law.below x (omega arith) (omega arith))) in
    let up = pow_apart (63 - clz x) j x (law.above x (omega arith) (omega arith)) hi in
    let shift : 64 - clz x - 1 ≡ j = omega arith in
    let word : 1 * 2 ^ j % 2 ^ 32 ≡ 2 ^ j = omega arith in
    rw (lt→ltb x (2 ^ 31) small, shift, word, lt→ltb (2 ^ j) (2 ^ 31) (omega arith)) refl

-- The ring has as many slots as the largest power of two of pointers that fit in its size.
pub init_mpmc_ring_buffer_lem :
    (clz : ℕ → ℕ) (ring ring_size k : ℕ)
    → ClzLaw clz
    → ring ≢ 0
    → 8 * 2 ^ k ≤ ring_size
    → ring_size < 8 * 2 ^ suc k
    → ring_size < 2 ^ 31
    → init_mpmc_ring_buffer clz ring ring_size
      ≡ (record { ring = ring; max_cur = 2 ^ k - 1; read_cur = 0; write_cur = 0 })
unfolding init_mpmc_ring_buffer
init_mpmc_ring_buffer_lem clz ring ring_size k law ne lo hi small =
    let pos = one-le-pow k 2 (omega arith) in
    let e0 : ring_size % 2 ^ 32 ≡ ring_size = omega arith in
    let e3 : 2 ^ suc (suc (suc k)) ≡ 8 * 2 ^ k =
      omega (arith, pow-suc 2 k, pow-suc 2 (suc k), pow-suc 2 (suc (suc k))) in
    let e4 : 2 ^ suc (suc (suc (suc k))) ≡ 8 * 2 ^ suc k =
      omega (arith, e3, pow-suc 2 k, pow-suc 2 (suc (suc (suc k)))) in
    let down =
      round_down_to_pow2_lem clz ring_size (suc (suc (suc k))) law small (omega (arith, e3))
        (omega (arith, e4)) in
    let slots : (2 ^ suc (suc (suc k)) / 8 + 2 ^ 64 - 1) % 2 ^ 64 ≡ 2 ^ k - 1 = omega (arith, e3) in
    rw (ne→== ring 0 ne, e0, down, slots) refl
