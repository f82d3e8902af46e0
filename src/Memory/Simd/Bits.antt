-- ===== src/Memory/Simd/Bits.antt =====
-- The loop over the bits of a mask goes over the places that it stands for.
use tiny_base.Base.{
  ℕ, zero, suc, ◌+◌, ◌-◌, ◌*◌, ◌^◌, ◌<◌, ◌≤◌, ◌≡◌, refl, ◌∙◌, Bool, true, false, ◌&&◌, none, some,
  arith, inl, inr, Bool-cases, ◌==◌, if◌then◌else◌,
}
use tiny_base.Base.Loop.{search_up}
use tiny_base.Memory.Simd.Needle.{first_match}
use tiny_base.Memory.Simd.Mask.{word_of, word_of-suc, word_of_below, search_up-IsMask}
use tiny_base.Types.FirstBit.{Target, IsCtz, IsLowestBit, flip_bit}
use tiny_base.Types.FirstBit.Laws.{
  get_first_bit_set-IsLowestBit, clear_bit-lowest, flip_bit-clear_bit, lowest_bit_below,
}

-- What a bit loop needs of the operation that clears the bit it has tried.
abbrev pub ClearsLowest : (ℕ → ℕ → ℕ) → Type 0
ClearsLowest clear = (x i : ℕ) → x < 2 ^ 32 → IsLowestBit x i → clear x i ≡ x - 2 ^ i

pub flip_bit-lowest : ClearsLowest flip_bit
flip_bit-lowest x i lt b =
    flip_bit-clear_bit x i (lowest_bit_below x i lt b) ∙ clear_bit-lowest x i lt b

module _ (t : Target) (clear : ℕ → ℕ → ℕ) (test p : ℕ → Bool) (ok : IsCtz (t.ctz))
    (clears : ClearsLowest clear) where
  try_bit :
      (left k fuel : ℕ)
      → k + suc left ≤ 32
      → p k ≡ true
      → first_match t clear test (suc fuel) (word_of p (suc left) k)
        ≡ (if test k then some k else first_match t clear test fuel (word_of p left (k + 1)))
  unfolding first_match search_up
  try_bit left k fuel le e =
      let (set, lowest) = rw e at (search_up-IsMask p (suc left) k) in
      let below = word_of_below p (suc left) k le in
      let bit = get_first_bit_set-IsLowestBit t (word_of p (suc left) k) k ok below lowest in
      let cleared : clear (word_of p (suc left) k) k ≡ word_of p left (k + 1) =
        clears (word_of p (suc left) k) k below lowest
        ∙ rw (word_of-suc p left k, e) (omega arith) in
      let some' : (word_of p (suc left) k == 0) ≡ false = ground (arith, set) in
      rw (some', bit, cleared) refl

  none_left : (fuel : ℕ) → first_match t clear test fuel 0 ≡ none
  unfolding first_match
  none_left zero = refl
  none_left (suc fuel) = refl

  pub first_match-search_up :
      (left k fuel : ℕ)
      → k + left ≤ 32
      → left ≤ fuel
      → first_match t clear test fuel (word_of p left k) ≡ search_up (λ i. p i && test i) left k
  unfolding search_up
  first_match-search_up zero k fuel le le' =
      let e : 0 * 2 ^ k ≡ 0 = omega arith in rw e (none_left fuel)
  first_match-search_up (suc left) k zero le le' = absurd (omega arith)
  first_match-search_up (suc left) k (suc fuel) le le' = elim (Bool-cases (p k)) [
    | inl e ↦
        let rest = first_match-search_up left (k + 1) fuel (omega arith) (omega arith) in
        try_bit left k fuel le e ∙ rw (e, rest) refl
    | inr f ↦
        let skip : word_of p (suc left) k ≡ word_of p left (k + 1) =
          word_of-suc p left k ∙ rw f (omega arith) in
        rw (skip, f) (first_match-search_up left (k + 1) (suc fuel) (omega arith) (omega arith))
  ]
