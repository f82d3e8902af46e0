-- ===== src/Memory/Simd/Sse3.antt =====
-- `_BufferInBufferIdxSSE3` finds what the portable loop finds.
use tiny_base.Base.{
  ℕ, zero, suc, ◌+◌, ◌-◌, ◌<◌, ◌≤◌, ◌≡◌, refl, sym, ◌∙◌, ap, Bool, true, false, ◌&&◌, none, some,
  arith, inl, inr, Bool-cases, Option-cases, ◌==◌, leb,
}
use tiny_base.Base.Loop.{
  search_up, search_up_ext, search_up_shift, search_up_found, search_up_missed, search_up_upto,
  search_up-IsFirst, add_idx,
}
use tiny_base.Base.Word.{add_usz, sub_usz}
use tiny_base.Mem.{Mem}
use tiny_base.Memory.{Buffer, buffer, IsReadable, idx_or_invalid}
use tiny_base.Memory.Compare.{equal_buffers}
use tiny_base.Memory.Search.{needle_at, buffer_in_buffer_idx_simple}
use tiny_base.Memory.Simd.{Vector, match_mask}
use tiny_base.Memory.Simd.Mask.{match_mask_lem, mask_whole}
use tiny_base.Memory.Simd.Needle.{
  first_match, last_matches, fits_and_matches, needle_blocks, buffer_in_buffer_idx_sse3,
}
use tiny_base.Memory.Simd.Places.{matches, expected, needle_tail-expected}
use tiny_base.Memory.Simd.Blocks.{IsBlock, sixteen-IsBlock}
use tiny_base.Memory.Simd.Bits.{first_match-search_up}
use tiny_base.Types.FirstBit.{Target, IsCtz, clear_bit}
use tiny_base.Types.FirstBit.Laws.{clear_bit-lowest}

and_assoc : (a b c : Bool) → (a && (b && c)) ≡ (a && b && c)
and_assoc true b c = refl
and_assoc false b c = refl

module _ (t : Target) {lanes : ℕ} (v : Vector lanes) (b : IsBlock lanes) (ok : IsCtz (t.ctz))
    (m : Mem) (needle h : Buffer) (pos : 0 < needle.write_cur) (rh : IsReadable h) where
  same_test :
      (lo j : ℕ)
      → lo + j ≤ h.write_cur
      → ((m (h.base + lo + j) == m (needle.base))
          && fits_and_matches t v m needle h (h.base + lo) (h.write_cur - lo) j)
        ≡ matches m needle h (lo + j)
  unfolding matches fits_and_matches
  same_test lo j le =
      let e : h.base + lo + j ≡ h.base + (lo + j) = omega arith in
      let e' : sub_usz (h.write_cur - lo) j ≡ h.write_cur - (lo + j) = omega arith in
      rw (e, e') refl

  -- The mask of a block, with the test of its bits, gives the first place in the block.
  block :
      (lo : ℕ)
      → lo + lanes ≤ h.write_cur
      → add_idx lo (
          first_match t clear_bit
            (fits_and_matches t v m needle h (h.base + lo) (h.write_cur - lo))
            lanes
            (match_mask v m (m (needle.base)) (h.base + lo)))
        ≡ search_up (matches m needle h) lanes lo
  block lo le =
      let width : lanes - 0 ≡ lanes = omega arith in
      let p : ℕ → Bool = λ i. m (h.base + lo + i) == m (needle.base) in
      let test = fits_and_matches t v m needle h (h.base + lo) (h.write_cur - lo) in
      let found : first_match t clear_bit test lanes
            (match_mask v m (m (needle.base)) (h.base + lo))
          ≡ search_up (λ i. p i && test i) lanes 0 =
        rw (match_mask_lem v m (m (needle.base)) (h.base + lo), mask_whole p lanes, width)
          (first_match-search_up t clear_bit test p ok clear_bit-lowest lanes 0 lanes
            (omega (arith, b.small)) (omega arith)) in
      let same : search_up (λ i. p i && test i) lanes 0
          ≡ search_up (λ i. matches m needle h (lo + i)) lanes 0 =
        search_up_ext _ _ lanes 0 (λ j from to. same_test lo j (omega arith)) in
      let start : lo + 0 ≡ lo = omega arith in
      rw (found, same) (sym (rw start at (search_up_shift (matches m needle h) lo lanes 0)))

  block_round :
      (lo rest : ℕ)
      → lo + lanes ≤ h.write_cur
      → rest ≡ expected m needle h (lo + lanes)
      → (elim (first_match t clear_bit
          (fits_and_matches t v m needle h (h.base + lo) (h.write_cur - lo))
          lanes
          (match_mask v m (m (needle.base)) (h.base + lo))) [
            | some match_idx ↦ sub_usz (h.write_cur) (sub_usz (h.write_cur - lo) match_idx)
            | none ↦ rest
          ])
        ≡ expected m needle h lo
  block_round lo rest le e =
      elim (Option-cases (
        first_match t clear_bit (fits_and_matches t v m needle h (h.base + lo) (h.write_cur - lo))
          lanes (match_mask v m (m (needle.base)) (h.base + lo)))) [
            | inl e' ↦
                let missed =
                  search_up_missed (matches m needle h) lanes (h.write_cur - (lo + lanes)) lo
                    (sym (rw e' at (block lo le))) in
                rw (e', e) (sym (ap idx_or_invalid (rw whole at missed)))
            | inr (i, e') ↦
                let here = sym (rw e' at (block lo le)) in
                let found = rw whole at (
                  search_up_found (matches m needle h) lanes (h.write_cur - (lo + lanes)) lo
                    (lo + i) here) in
                let range =
                  rw here at (search_up-IsFirst (matches m needle h) lanes lo (lo + lanes) refl) in
                rw (e', found) (omega (arith, range.1))
          ]
    where
      whole : lanes + (h.write_cur - (lo + lanes)) ≡ h.write_cur - lo
      whole = omega arith

  needle_blocks-expected :
      (fuel lo : ℕ)
      → lo ≤ h.write_cur
      → h.write_cur - lo ≤ fuel
      → needle_blocks t v m needle h fuel (h.base + lo) (h.write_cur - lo) ≡ expected m needle h lo
  unfolding needle_blocks
  needle_blocks-expected zero lo le le' =
      needle_tail-expected t v m needle h pos rh (h.write_cur) lo le (omega arith)
  needle_blocks-expected (suc fuel) lo le le' =
      elim (Bool-cases
        (leb lanes (h.write_cur - lo) && leb (needle.write_cur) (h.write_cur - lo))) [
          | inl e ↦
              let next : h.base + lo + lanes ≡ h.base + (lo + lanes) = omega arith in
              let less : sub_usz (h.write_cur - lo) lanes ≡ h.write_cur - (lo + lanes) =
                ground arith in
              let rest : needle_blocks t v m needle h fuel (h.base + lo + lanes)
                    (sub_usz (h.write_cur - lo) lanes)
                  ≡ expected m needle h (lo + lanes) =
                rw (next, less)
                  (needle_blocks-expected fuel (lo + lanes) (ground arith) (omega arith)) in
              rw e (block_round lo _ (ground arith) rest)
          | inr f ↦
              rw f (needle_tail-expected t v m needle h pos rh (h.write_cur) lo le (omega arith))
        ]

  same_place :
      (j : ℕ) → j + needle.write_cur ≤ h.write_cur → matches m needle h j ≡ needle_at m needle h j
  unfolding matches needle_at last_matches
  same_place j le =
      let fits : leb (needle.write_cur) (h.write_cur - j) ≡ true = ground arith in
      let e : add_usz (h.base) (sub_usz (add_usz j (needle.write_cur)) 1)
          ≡ add_usz (h.base + j) (sub_usz (needle.write_cur) 1) =
        omega arith in
      rw (fits, e)
        (and_assoc (m (h.base + j) == m (needle.base))
          (m (add_usz (h.base + j) (sub_usz (needle.write_cur) 1))
            == m (add_usz (needle.base) (sub_usz (needle.write_cur) 1)))
          (equal_buffers m (buffer (h.base + j) (needle.write_cur) 0) needle))

  matches-needle_at :
      needle.write_cur ≤ h.write_cur
      → search_up (matches m needle h) (h.write_cur) 0
        ≡ search_up (needle_at m needle h) (h.write_cur - needle.write_cur + 1) 0
  unfolding matches
  matches-needle_at le =
      let whole : h.write_cur - needle.write_cur + 1 + (needle.write_cur - 1) ≡ h.write_cur =
        omega arith in
      ap (λ n. search_up (matches m needle h) n 0) (sym whole)
      ∙ search_up_upto (matches m needle h) (h.write_cur - needle.write_cur + 1)
          (needle.write_cur - 1) 0 (λ j from to. ground arith)
      ∙ search_up_ext (matches m needle h) (needle_at m needle h)
          (h.write_cur - needle.write_cur + 1) 0 (λ j from to. same_place j (omega arith))

  -- The blocks and the loop at the end, from the start on.
  pub blocks-simple :
      needle.write_cur ≤ h.write_cur
      → needle_blocks t v m needle h (h.write_cur) (h.base) (h.write_cur)
        ≡ idx_or_invalid (
            search_up
              (needle_at m needle h)
              (add_usz (sub_usz (h.write_cur) (needle.write_cur)) 1)
              0)
  blocks-simple le =
      let places : add_usz (sub_usz (h.write_cur) (needle.write_cur)) 1
          ≡ h.write_cur - needle.write_cur + 1 =
        ground arith in
      let start : h.base + 0 ≡ h.base = omega arith in
      let all : h.write_cur - 0 ≡ h.write_cur = omega arith in
      let found =
        rw (start, all) at (needle_blocks-expected (h.write_cur) 0 (omega arith) (omega arith)) in
      rw places (found ∙ ap idx_or_invalid (matches-needle_at le))

-- For a nonempty needle and a readable haystack, the SSE3 search gives what the portable loop
-- gives, also where the needle crosses from a block into the next one or into the bytes behind
-- the last block.
pub buffer_in_buffer_idx_sse3-simple :
    (t : Target) (v : Vector 16) (m : Mem) (needle h : Buffer)
    → IsCtz (t.ctz)
    → 0 < needle.write_cur
    → IsReadable needle
    → IsReadable h
    → buffer_in_buffer_idx_sse3 t v m needle h ≡ buffer_in_buffer_idx_simple m needle h
unfolding buffer_in_buffer_idx_sse3 buffer_in_buffer_idx_simple
buffer_in_buffer_idx_sse3-simple t v m needle h ok pos rn rh =
    elim (Bool-cases (leb (needle.write_cur) (h.write_cur))) [
      | inl e ↦ rw e (blocks-simple t v sixteen-IsBlock ok m needle h pos rh (ground arith))
      | inr f ↦ rw f refl
    ]
