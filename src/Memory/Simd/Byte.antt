-- ===== src/Memory/Simd/Byte.antt =====
-- The byte search by blocks finds what the portable loop finds.
use tiny_base.Base.{
  ℕ, zero, suc, ◌+◌, ◌-◌, ◌<◌, ◌≤◌, ◌≡◌, refl, sym, ◌∙◌, ap, false, Option, none, some, arith, inl,
  inr, Bool-cases, Option-cases, ◌==◌, leb, ◌&&◌,
}
use tiny_base.Base.Loop.{
  search_up, search_up_found, search_up_missed, search_up_shift, add_idx, search_up-IsFirst,
}
use tiny_base.Base.Word.{add_usz, sub_usz}
use tiny_base.Mem.{Mem}
use tiny_base.Memory.{Buffer, IsReadable, idx_or_invalid, invalid_idx}
use tiny_base.Memory.Simd.{Vector, Chunk, match_mask, chunk_loop, scalar_tail, chunk_result}
use tiny_base.Memory.Simd.Mask.{
  word_of, word_of_below, search_up-IsMask, match_mask_lem, mask_whole,
}
use tiny_base.Types.FirstBit.{Target, IsCtz, get_first_bit_set}
use tiny_base.Types.FirstBit.Laws.{get_first_bit_set-IsLowestBit}

add_idx-some :
    (a b i : ℕ) (o : Option ℕ)
    → add_idx a (some i) ≡ add_idx b o
    → (j : ℕ) × (o ≡ some j) × (a + i ≡ b + j)
add_idx-some a b i none e = absurd (ground arith)
add_idx-some a b i (some j) e = (j, refl, ground arith)

add_idx-none : (a b : ℕ) (o : Option ℕ) → add_idx a none ≡ add_idx b o → o ≡ none
add_idx-none a b none e = refl
add_idx-none a b (some j) e = absurd (ground arith)

add_idx_again :
    (a b c : ℕ) (o o' : Option ℕ) → add_idx c o ≡ add_idx b o' → b ≤ c → add_idx (c - b) o ≡ o'
add_idx_again a b c none none e le = refl
add_idx_again a b c none (some j) e le = absurd (ground arith)
add_idx_again a b c (some i) none e le = absurd (ground arith)
add_idx_again a b c (some i) (some j) e le = ap some (ground arith)

module _ (t : Target) {lanes : ℕ} (v : Vector lanes) (ok : IsCtz (t.ctz)) (pos : 0 < lanes)
    (le32 : lanes ≤ 32) (m : Mem) (needle : ℕ) (h : Buffer) (rh : IsReadable h) where
  -- The loop has come to index `lo`, `offset` bytes into the block that is in the mask.
  pub record Scans (lo offset : ℕ) (c : Chunk) : Type 0 where
    pub inside : offset ≤ lanes
    pub place : c.init + offset ≡ h.base + lo
    pub bits : c.mask ≡ word_of (λ i. m (c.init + i) == needle) (lanes - offset) offset
    pub upto : lo + (lanes - offset) + c.remaining ≡ h.write_cur

  -- What the portable loop finds from index `lo` on.
  abbrev pub expected : (lo : ℕ) → ℕ
  expected lo = idx_or_invalid (search_up (λ i. m (h.base + i) == needle) (h.write_cur - lo) lo)

  -- A search from an address on gives the same place, whichever base its index counts from.
  rebase :
      (a lo n i : ℕ)
      → a + i ≡ h.base + lo
      → add_idx a (search_up (λ j. m (a + j) == needle) n i)
        ≡ add_idx (h.base) (search_up (λ j. m (h.base + j) == needle) n lo)
  rebase a lo n i e =
      sym (search_up_shift (λ x. m x == needle) a n i)
      ∙ rw e (search_up_shift (λ x. m x == needle) (h.base) n lo)

  pub tail :
      (lo n : ℕ) → lo + n ≡ h.write_cur → scalar_tail m needle (h.base + lo) n lo ≡ expected lo
  unfolding scalar_tail
  tail lo n e = elim (Option-cases (search_up (λ j. m (h.base + lo + j) == needle) n 0)) [
    | inl e' ↦
        let none' = add_idx-none (h.base + lo) (h.base) _ (rw e' at same) in
        rw (scalar_tail, e', rest, none') refl
    | inr (i, e') ↦
        let range =
          rw e' at (search_up-IsFirst (λ j. m (h.base + lo + j) == needle) n 0 n (omega arith)) in
        let (j, found, place) = add_idx-some (h.base + lo) (h.base) i _ (rw e' at same) in
        rw (scalar_tail, e', rest, found) (omega (arith, place, range.1))
  ]
    where
      rest : h.write_cur - lo ≡ n
      rest = omega arith

      same :
          add_idx (h.base + lo) (search_up (λ j. m (h.base + lo + j) == needle) n 0)
          ≡ add_idx (h.base) (search_up (λ j. m (h.base + j) == needle) n lo)
      same = rebase (h.base + lo) lo n 0 (omega arith)

  module _ (lo offset : ℕ) (c : Chunk) (s : Scans lo offset c) where
    whole : lanes - offset + (h.write_cur - (lo + (lanes - offset))) ≡ h.write_cur - lo
    whole = omega (arith, s.upto)

    -- The block holds the byte: its lowest bit is the place.
    hit :
        (i : ℕ)
        → search_up (λ j. m (c.init + j) == needle) (lanes - offset) offset ≡ some i
        → (0 < c.mask)
          × (add_usz (sub_usz (c.init) (h.base)) (get_first_bit_set t (c.mask)) ≡ expected lo)
          × (expected lo < invalid_idx)
    hit i e =
        let first =
          search_up-IsFirst (λ j. m (c.init + j) == needle) (lanes - offset) offset lanes
            (omega (arith, s.inside)) in
        let range = rw e at first in
        let bits = search_up-IsMask (λ j. m (c.init + j) == needle) (lanes - offset) offset in
        let (set, lowest) = rw (e, ← s.bits) at bits in
        let (j, e', same) =
          add_idx-some (c.init) (h.base) i _
            (rw e at (rebase (c.init) lo (lanes - offset) offset (s.place))) in
        let found = rw whole at (
          search_up_found (λ j. m (h.base + j) == needle) (lanes - offset)
            (h.write_cur - (lo + (lanes - offset))) lo j e') in
        let below =
          word_of_below (λ j. m (c.init + j) == needle) (lanes - offset) offset
            (omega (arith, s.inside)) in
        let bit = get_first_bit_set-IsLowestBit t (c.mask) i ok (rw (s.bits) below) lowest in
        (
          set,
          rw (found, bit) (omega (arith, same, s.place, s.upto, range.1)),
          rw found (omega (arith, same, s.place, s.upto, range.1)),
        )

    -- The block does not hold it.
    miss :
        search_up (λ j. m (c.init + j) == needle) (lanes - offset) offset ≡ none
        → (c.mask ≡ 0) × (expected lo ≡ expected (lo + (lanes - offset)))
    miss e =
        let bits = search_up-IsMask (λ j. m (c.init + j) == needle) (lanes - offset) offset in
        let none' = rw (e, ← s.bits) at bits in
        let e' =
          add_idx-none (c.init) (h.base) _
            (rw e at (rebase (c.init) lo (lanes - offset) offset (s.place))) in
        let missed = rw whole at (
          search_up_missed (λ j. m (h.base + j) == needle) (lanes - offset)
            (h.write_cur - (lo + (lanes - offset))) lo e') in
        (none', rw missed refl)

    -- Where the loop stops, what follows it gives the place.
    stopped :
        (leb lanes (c.remaining) && (c.mask == 0)) ≡ false
        → chunk_result t v m needle h c ≡ expected lo
    unfolding chunk_result
    stopped e =
        elim (Option-cases (search_up (λ j. m (c.init + j) == needle) (lanes - offset) offset)) [
          | inl e' ↦
              let (zero', skip) = miss e' in
              let next : add_usz (c.init) lanes ≡ h.base + (lo + (lanes - offset)) =
                omega (arith, s.place, s.inside, s.upto) in
              let partial : sub_usz (h.base + (lo + (lanes - offset))) (h.base)
                  ≡ lo + (lanes - offset) =
                omega (arith, s.upto) in
              rw (zero', skip, next, partial) (tail (lo + (lanes - offset)) (c.remaining) (s.upto))
          | inr (i, e') ↦
              let (set, place, below) = hit i e' in
              let some' : (c.mask == 0) ≡ false = ground (arith, set) in
              let valid : (expected lo == invalid_idx) ≡ false = ground (arith, below) in
              rw (some', place, valid) refl
        ]

    next : Chunk
    next = record {
      init = add_usz (c.init) lanes;
      mask = match_mask v m needle (add_usz (c.init) lanes);
      remaining = sub_usz (c.remaining) lanes;
    }

    next-Scans : lanes ≤ c.remaining → Scans (lo + (lanes - offset)) 0 next
    unfolding next
    next-Scans ge = record {
      inside = omega arith;
      place = omega (arith, s.place, s.inside, s.upto);
      bits =
          match_mask_lem v m needle (next.init)
          ∙ mask_whole (λ i. m (next.init + i) == needle) lanes;
      upto = omega (arith, s.upto);
    }

    -- The loop goes on where the block does not hold the byte.
    went_on : (r : ℕ) → c.mask ≡ 0 → r ≡ expected (lo + (lanes - offset)) → r ≡ expected lo
    went_on r e rest =
        elim (Option-cases (search_up (λ j. m (c.init + j) == needle) (lanes - offset) offset)) [
          | inl e' ↦ rest ∙ sym ((miss e').1)
          | inr (i, e') ↦ let set = (hit i e').0 in absurd (omega arith)
        ]

  pub loop :
      (fuel lo offset : ℕ) (c : Chunk)
      → Scans lo offset c
      → c.remaining ≤ fuel
      → chunk_result t v m needle h (chunk_loop v fuel m needle c) ≡ expected lo
  unfolding chunk_loop next
  loop zero lo offset c s le = stopped lo offset c s (ground arith)
  loop (suc fuel) lo offset c s le = elim (Bool-cases (leb lanes (c.remaining) && (c.mask == 0))) [
    | inr f ↦ rw f (stopped lo offset c s f)
    | inl e ↦
        let ge : lanes ≤ c.remaining = ground (arith, e) in
        let zero' : c.mask ≡ 0 = ground (arith, e) in
        let rest =
          loop fuel (lo + (lanes - offset)) 0 (next lo offset c s) (next-Scans lo offset c s ge)
            (ground (arith, s.upto)) in
        rw e (went_on lo offset c s _ zero' rest)
  ]
