-- ===== src/Memory/Simd/Avx2.antt =====
-- What `_BufferInBufferIdxAVX2` finds.
use native.Mathlib.Decide.{ℕ_discrete}
use tiny_base.Base.{
  ℕ, zero, suc, ◌+◌, ◌-◌, ◌*◌, ◌/◌, ◌^◌, ◌<◌, ◌≤◌, ◌≡◌, ◌↔◌, refl, sym, ◌∙◌, ap, ap₂, ==_refl, Bool,
  true, false, ◌&&◌, none, some, arith, inl, inr, Bool-cases, Option-cases, ◌==◌, leb, ltb,
  if◌then◌else◌, List, ◌∷◌, bit_and,
}
use tiny_base.Base.Loop.{
  search_up, search_up_ext, search_up_shift, search_up_found, search_up_missed, search_up-IsFirst,
  add_idx,
}
use tiny_base.Base.Word.{add_usz, sub_usz}
use tiny_base.Mem.{Mem, bytes, memcmp_equal}
use tiny_base.Memory.{Buffer, IsReadable, idx_or_invalid, invalid_idx}
use tiny_base.Memory.Simd.{Vector, mask_of}
use tiny_base.Memory.Simd.Mask.{mask_ext, mask_whole}
use tiny_base.Memory.Simd.Needle.{first_match, avx2_mask, avx2_blocks, avx2_tail, in_front}
use tiny_base.Memory.Simd.Bits.{first_match-search_up, flip_bit-lowest}
use tiny_base.Types.FirstBit.{Target, IsCtz, flip_bit}

both : (p q : Bool) → (p && q) ≡ true → (p ≡ true) × (q ≡ true)
both true q e = (refl, e)
both false q e = absurd (ground arith)

tails : {x y : ℕ} {xs ys : List ℕ} → (x ∷ xs) ≡ (y ∷ ys) → (x ≡ y) × (xs ≡ ys)
tails e = (cc, cc)

pub memcmp_equal-bytes :
    (m : Mem) (a b n : ℕ) → (memcmp_equal m a b n ≡ true) ↔ (bytes m a n ≡ bytes m b n)
memcmp_equal-bytes m a b zero = (λ e. refl, λ e. refl)
memcmp_equal-bytes m a b (suc n) =
    let (there, back) = memcmp_equal-bytes m (a + 1) (b + 1) n in
    (
      λ e.
          let (eq, rest) = both (m a == m b) (memcmp_equal m (a + 1) (b + 1) n) e in
          ap₂ (λ x xs. x ∷ xs) (ground arith) (there rest),
      λ e. let (eq, rest) = tails e in ground (arith, eq, back rest),
    )

same_byte :
    (a b : ℕ)
    → leb 0x80 (bit_and (if a == b then 0xFF else 0) (if true then 0xFF else 0)) ≡ (b == a)
same_byte a b = elim (ℕ_discrete a b) [
  | yes eq ↦
      let e : (a == b) ≡ true = ground arith in
      let e' : (b == a) ≡ true = ground arith in rw (e, e') refl
  | no ne ↦
      let e : (a == b) ≡ false = ground arith in
      let e' : (b == a) ≡ false = ground arith in rw (e, e') refl
]

module _ (t : Target) (v : Vector 32) (ok : IsCtz (t.ctz)) (m : Mem) (needle h : Buffer)
    (rh : IsReadable h) where
  unfoldable pub matches : ℕ → Bool
  matches i =
      (m (h.base + i) == m (needle.base))
      && memcmp_equal m (h.base + i) (needle.base) (needle.write_cur)

  abbrev first : v.Reg
  first = v.set1 (m (needle.base))

  abbrev last : v.Reg
  last = v.set1 (m (add_usz (needle.base) (sub_usz (needle.write_cur) 1)))

  lane_lem :
      (ptr i : ℕ)
      → i < 32
      → leb 0x80 (v.lane (v.and (v.cmpeq first (v.load m ptr)) (v.cmpeq last last)) i)
        ≡ (m (ptr + i) == m (needle.base))
  lane_lem ptr i lt =
      rw
        (
          v.lane-and (v.cmpeq first (v.load m ptr)) (v.cmpeq last last) i lt,
          v.lane-cmpeq first (v.load m ptr) i lt,
          v.lane-cmpeq last last i lt,
          v.lane-load m ptr i lt,
          v.lane-set1 (m (needle.base)) i lt,
          ==_refl (v.lane last i),
        )
        (same_byte (m (needle.base)) (m (ptr + i)))

  avx2_mask_lem :
      (ptr : ℕ) → avx2_mask t v m needle h ptr ≡ mask_of 32 (λ i. m (ptr + i) == m (needle.base))
  unfolding avx2_mask
  avx2_mask_lem ptr = v.movemask_lanes _ ∙ mask_ext 32 _ _ (λ i lt. lane_lem ptr i lt)

  same_test :
      (lo j : ℕ)
      → ((m (h.base + lo + j) == m (needle.base))
          && memcmp_equal m (h.base + lo + j) (needle.base) (needle.write_cur))
        ≡ matches (lo + j)
  unfolding matches
  same_test lo j = let e : h.base + lo + j ≡ h.base + (lo + j) = omega arith in rw e refl

  -- The mask of a block, with the test of its bits, gives the first place in the block.
  block :
      (lo : ℕ)
      → add_idx lo (
          first_match t flip_bit
            (λ i. memcmp_equal m (h.base + lo + i) (needle.base) (needle.write_cur))
            32
            (avx2_mask t v m needle h (h.base + lo)))
        ≡ search_up matches 32 lo
  block lo =
      let p : ℕ → Bool = λ i. m (h.base + lo + i) == m (needle.base) in
      let test : ℕ → Bool =
        λ i. memcmp_equal m (h.base + lo + i) (needle.base) (needle.write_cur) in
      let found : first_match t flip_bit test 32 (avx2_mask t v m needle h (h.base + lo))
          ≡ search_up (λ i. p i && test i) 32 0 =
        rw (avx2_mask_lem (h.base + lo), mask_whole p 32)
          (first_match-search_up t flip_bit test p ok flip_bit-lowest 32 0 32 (omega arith)
            (omega arith)) in
      let same : search_up (λ i. p i && test i) 32 0 ≡ search_up (λ i. matches (lo + i)) 32 0 =
        search_up_ext _ _ 32 0 (λ j a b. same_test lo j) in
      let start : lo + 0 ≡ lo = omega arith in
      rw (found, same) (sym (rw start at (search_up_shift matches lo 32 0)))

  -- The places that the blocks go over: all the blocks that start in front of the last place.
  abbrev pub covered : ℕ → ℕ
  covered lo = (h.write_cur - needle.write_cur - lo + 31) / 32 * 32

  block_round :
      (lo rest : ℕ)
      → lo < h.write_cur - needle.write_cur
      → h.base + lo + 32 < 2 ^ 64
      → rest ≡ idx_or_invalid (search_up matches (covered (lo + 32)) (lo + 32))
      → (elim (first_match t flip_bit
          (λ i. memcmp_equal m (h.base + lo + i) (needle.base) (needle.write_cur))
          32
          (avx2_mask t v m needle h (h.base + lo))) [
            | some bit_pos ↦ sub_usz (h.base + lo + bit_pos) (h.base)
            | none ↦ rest
          ])
        ≡ idx_or_invalid (search_up matches (covered lo) lo)
  block_round lo rest lt le e =
      elim (Option-cases (
        first_match t flip_bit
          (λ i. memcmp_equal m (h.base + lo + i) (needle.base) (needle.write_cur)) 32
          (avx2_mask t v m needle h (h.base + lo)))) [
            | inl e' ↦
                let missed =
                  search_up_missed matches 32 (covered (lo + 32)) lo (sym (rw e' at (block lo))) in
                rw (e', e) (sym (ap idx_or_invalid (rw whole at missed)))
            | inr (i, e') ↦
                let here = sym (rw e' at (block lo)) in
                let found =
                  rw whole at (search_up_found matches 32 (covered (lo + 32)) lo (lo + i) here) in
                let range = rw here at (search_up-IsFirst matches 32 lo (lo + 32) refl) in
                rw (e', found) (omega (arith, range.1))
          ]
    where
      whole : 32 + covered (lo + 32) ≡ covered lo
      whole = omega arith

  -- The loop at the end is not entered.
  avx2_tail_idle :
      (fuel ptr : ℕ)
      → in_front t v m needle h ptr ≡ false
      → avx2_tail t v m needle h fuel ptr ≡ invalid_idx
  unfolding avx2_tail
  avx2_tail_idle zero ptr f = refl
  avx2_tail_idle (suc fuel) ptr f = rw f refl

  pub avx2_blocks_lem :
      (fuel lo : ℕ)
      → h.base + h.write_cur + 32 < 2 ^ 64
      → needle.write_cur ≤ h.write_cur
      → h.write_cur - needle.write_cur - lo ≤ fuel
      → avx2_blocks t v m needle h fuel (h.base + lo)
        ≡ idx_or_invalid (search_up matches (covered lo) lo)
  unfolding avx2_blocks search_up
  avx2_blocks_lem zero lo room fits le =
      let none' : covered lo ≡ 0 = omega arith in
      rw none' (avx2_tail_idle (h.write_cur) (h.base + lo) (ground arith))
  avx2_blocks_lem (suc fuel) lo room fits le =
      elim (Bool-cases
        (ltb (h.base + lo) (sub_usz (add_usz (h.base) (h.write_cur)) (needle.write_cur)))) [
          | inl e ↦
              let lt : lo < h.write_cur - needle.write_cur = ground arith in
              let next : h.base + lo + 32 ≡ h.base + (lo + 32) = omega arith in
              let rest : avx2_blocks t v m needle h fuel (h.base + lo + 32)
                  ≡ idx_or_invalid (search_up matches (covered (lo + 32)) (lo + 32)) =
                rw next (avx2_blocks_lem fuel (lo + 32) room fits (omega arith)) in
              rw e (block_round lo _ lt (omega arith) rest)
          | inr f ↦
              let none' : covered lo ≡ 0 = ground arith in
              rw (f, none') (avx2_tail_idle (h.write_cur) (h.base + lo) f)
        ]
