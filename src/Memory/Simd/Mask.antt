-- ===== src/Memory/Simd/Mask.antt =====
-- Masks of comparisons: what the lowest bit of one tells.
use native.Mathlib.Nat.{
  pow-suc, pow-succ', div-div-eq-div-mul, pow-le-pow_right, mod-eq_of_lt, one-le-pow,
}
use tiny_base.Base.{
  ℕ, zero, suc, ◌+◌, ◌-◌, ◌*◌, ◌/◌, ◌^◌, ◌<◌, ◌≤◌, ◌≡◌, refl, sym, ◌∙◌, ap, Bool, true, false,
  Option, none, some, arith, bit_and, inl, inr, Bool-cases, ◌==◌,
}
use tiny_base.Base.Bits.{bit_and-field}
use tiny_base.Base.Table.{agree_below, agree_below→eq}
use tiny_base.Base.Loop.{search_up}
use tiny_base.Base.Word.{u32, ◌<<<◌}
use tiny_base.Mem.{Mem}
use tiny_base.Memory.{of_bool}
use tiny_base.Memory.Simd.{Vector, mask_of, match_mask}
use tiny_base.Types.FirstBit.{IsLowestBit}

pub mask_ext : (n : ℕ) (p q : ℕ → Bool) → ((i : ℕ) → i < n → p i ≡ q i) → mask_of n p ≡ mask_of n q
mask_ext zero p q h = refl
mask_ext (suc n) p q h =
    rw
      (
        h 0 (omega arith),
        mask_ext n (λ i. p (suc i)) (λ i. q (suc i)) (λ i lt. h (suc i) (omega arith)),
      )
      refl

of_bool-bit : (b : Bool) → of_bool b < 2
of_bool-bit true = omega arith
of_bool-bit false = omega arith

mask_below : (n : ℕ) (p : ℕ → Bool) → mask_of n p < 2 ^ n
mask_below zero p = omega arith
mask_below (suc n) p = omega (arith, mask_below n (λ i. p (suc i)), pow-suc 2 n, of_bool-bit (p 0))

mask_drop :
    (s n total : ℕ) (p : ℕ → Bool)
    → total ≡ s + n
    → mask_of total p / 2 ^ s ≡ mask_of n (λ i. p (s + i))
mask_drop zero n total p e =
    let e' : total ≡ n = omega arith in
    let one : mask_of n p / 2 ^ 0 ≡ mask_of n p = omega arith in
    rw (e', one) (mask_ext n p (λ i. p (0 + i)) (λ i lt. ap p (omega arith)))
mask_drop (suc s) n zero p e = absurd (omega arith)
mask_drop (suc s) n (suc total) p e =
    let half : mask_of (suc total) p / 2 ≡ mask_of total (λ i. p (suc i)) =
      omega (arith, of_bool-bit (p 0)) in
    let quot : mask_of (suc total) p / 2 ^ suc s ≡ mask_of (suc total) p / 2 / 2 ^ s =
      rw (pow-succ' 2 s) (sym (div-div-eq-div-mul _ 2 (2 ^ s))) in
    let rest = mask_drop s n total (λ i. p (suc i)) (omega arith) in
    rw (quot, half, rest)
      (mask_ext n (λ i. p (suc (s + i))) (λ i. p (suc s + i)) (λ i lt. ap p (omega arith)))

pub pow_next : (k : ℕ) → 2 ^ (k + 1) ≡ 2 ^ k * 2
pow_next k = let e : k + 1 ≡ suc k = omega arith in rw e (pow-suc 2 k)

-- The bits of `p` from `k` on, `left` of them, in their places.
abbrev pub word_of : (ℕ → Bool) → (left k : ℕ) → ℕ
word_of p left k = mask_of left (λ i. p (k + i)) * 2 ^ k

pub word_of-suc :
    (p : ℕ → Bool) (left k : ℕ)
    → word_of p (suc left) k ≡ of_bool (p k) * 2 ^ k + word_of p left (k + 1)
word_of-suc p left k =
    let e : mask_of left (λ i. p (k + suc i)) ≡ mask_of left (λ i. p (k + 1 + i)) =
      mask_ext left _ _ (λ i lt. ap p (omega arith)) in
    let e' : p (k + 0) ≡ p k = ap p (omega arith) in
    let e'' = pow_next k in rw (e, e', e'') (grind arith)

word_of_le : (p : ℕ → Bool) (left k : ℕ) → word_of p left k + 2 ^ k ≤ 2 ^ (k + left)
word_of_le p zero k = let e : k + 0 ≡ k = omega arith in rw e (omega arith)
word_of_le p (suc left) k =
    let e : k + suc left ≡ k + 1 + left = omega arith in
    let le = word_of_le p left (k + 1) in
    let e' = word_of-suc p left k in
    let e'' = pow_next k in
    let bit = of_bool-bit (p k) in
    rw e (elim (Bool-cases (p k)) [
      | inl t ↦ let one = ap of_bool t in grind arith
      | inr f ↦ let none' = ap of_bool f in grind arith
    ])

pub word_of_below : (p : ℕ → Bool) (left k : ℕ) → k + left ≤ 32 → word_of p left k < 2 ^ 32
word_of_below p left k le =
    let pos = one-le-pow k 2 (omega arith) in
    let whole : 2 ^ (k + left) ≤ 2 ^ 32 = pow-le-pow_right (omega arith) le in
    let part = word_of_le p left k in omega arith

-- `x` is 0 where the search finds nothing, and its lowest 1 bit is at the place that was found.
abbrev pub IsMask : Option ℕ → ℕ → Type 0
IsMask none x = x ≡ 0
IsMask (some i) x = (0 < x) × IsLowestBit x i

pub search_up-IsMask : (p : ℕ → Bool) (left k : ℕ) → IsMask (search_up p left k) (word_of p left k)
unfolding search_up
search_up-IsMask p zero k = omega arith
search_up-IsMask p (suc left) k = elim (Bool-cases (p k)) [
  | inl t ↦
      let rest = mask_of left (λ i. p (k + 1 + i)) in
      let pos = one-le-pow k 2 (omega arith) in
      let e = word_of-suc p left k in
      let e' : word_of p (suc left) k ≡ (rest * 2 + 1) * 2 ^ k =
        e ∙ rw (t, pow_next k) (grind arith) in
      rw t (grind arith, (rest, e'))
  | inr f ↦
      let e : word_of p (suc left) k ≡ word_of p left (k + 1) =
        word_of-suc p left k ∙ rw f (omega arith) in
      rw (f, e) (search_up-IsMask p left (k + 1))
]

-- The mask of a comparison, and the same with the bits below `offset` cleared.
module _ {lanes : ℕ} (v : Vector lanes) (m : Mem) (needle a : ℕ) where
  pub match_mask_lem : match_mask v m needle a ≡ mask_of lanes (λ i. m (a + i) == needle)
  unfolding match_mask
  match_mask_lem =
      v.movemask_lanes _
      ∙ mask_ext lanes _ _ (λ i lt.
        rw
          (
            v.lane-cmpeq (v.load m a) (v.set1 needle) i lt,
            v.lane-load m a i lt,
            v.lane-set1 needle i lt,
          )
          (elim (Bool-cases (m (a + i) == needle)) [ inl t ↦ rw t refl | inr f ↦ rw f refl ]))

ones_at : (i : ℕ) → i < 32 → u32 (0xFFFF_FFFF <<< i) ≡ (2 ^ (32 - i) - 1) * 2 ^ i
unfolding agree_below
ones_at = agree_below→eq _ _ 32 refl

pub mask_from :
    (p : ℕ → Bool) (lanes offset : ℕ)
    → lanes ≤ 32
    → offset < lanes
    → bit_and (mask_of lanes p) (u32 (0xFFFF_FFFF <<< offset)) ≡ word_of p (lanes - offset) offset
mask_from p lanes offset le lt =
    let part = mask_drop offset (lanes - offset) lanes p (omega arith) in
    let below : mask_of (lanes - offset) (λ i. p (offset + i)) < 2 ^ (32 - offset) =
      let whole : 2 ^ (lanes - offset) ≤ 2 ^ (32 - offset) =
        pow-le-pow_right (omega arith) (omega arith) in
      omega (arith, mask_below (lanes - offset) (λ i. p (offset + i))) in
    rw
      (
        ones_at offset (omega arith),
        bit_and-field (32 - offset) offset (mask_of lanes p),
        part,
        mod-eq_of_lt below,
      )
      refl

pub mask_whole : (p : ℕ → Bool) (lanes : ℕ) → mask_of lanes p ≡ word_of p (lanes - 0) 0
mask_whole p lanes =
    let e : lanes - 0 ≡ lanes = omega arith in
    let same = mask_ext lanes p (λ i. p (0 + i)) (λ i lt. ap p (omega arith)) in
    rw e (same ∙ omega arith)
