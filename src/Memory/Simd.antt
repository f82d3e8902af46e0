-- ===== src/Memory/Simd.antt =====
-- The searches of src/tinybase-memory.c that compare a block of bytes at a time, over the vector
-- instructions that they use. `lanes` is 16 for SSE2 and SSE3 and 32 for AVX2.
pub mod Mask
pub mod Byte
pub mod Blocks
pub mod Needle
pub mod Bits
pub mod Places
pub mod Sse3
pub mod Avx2
pub mod Unused
pub mod Missed
pub mod Install
use Prim.Native.Nat.{bit_and}
use tiny_base.Base.{
  ℕ, zero, suc, ◌+◌, ◌-◌, ◌*◌, ◌^◌, ◌<◌, ◌≡◌, Bool, true, false, not, ◌&&◌, Option, none, some, ltb,
  leb, ◌==◌, if◌then◌else◌,
}
use tiny_base.Base.Loop.{search_up}
use tiny_base.Base.Word.{u32, add_usz, sub_usz, ◌<<<◌}
use tiny_base.Mem.{Mem}
use tiny_base.Memory.{Buffer, buffer, of_bool, invalid_idx, idx_or_invalid}
use tiny_base.Memory.Compare.{equal_buffers}
use tiny_base.Types.FirstBit.{Target, get_first_bit_set, flip_bit, clear_bit}

-- The word whose bit `i`, below `n`, tells whether `p i` holds.
abbrev pub mask_of : ℕ → (ℕ → Bool) → ℕ
mask_of zero p = 0
mask_of (suc n) p = of_bool (p 0) + 2 * mask_of n (λ i. p (suc i))

-- The intrinsics of the processor, lane by lane as their documentation has it:
-- `_mm_load(u)_si128` and `_mm_lddqu_si128`, `_mm_set1_epi8`, `_mm_cmpeq_epi8`, `_mm_and_si128` and
-- `_mm_movemask_epi8`, and those of `_mm256`.
pub record Vector (lanes : ℕ) : Type 1 where
  pub Reg : Type 0
  pub lane : Reg → ℕ → ℕ
  pub load : Mem → (address : ℕ) → Reg
  pub set1 : ℕ → Reg
  pub cmpeq : Reg → Reg → Reg
  pub and : Reg → Reg → Reg
  pub movemask : Reg → ℕ
  pub lane-load : (m : Mem) (a i : ℕ) → i < lanes → lane (load m a) i ≡ m (a + i)
  pub lane-set1 : (b i : ℕ) → i < lanes → lane (set1 b) i ≡ b
  pub lane-cmpeq :
      (x y : Reg) (i : ℕ)
      → i < lanes
      → lane (cmpeq x y) i ≡ (if lane x i == lane y i then 0xFF else 0)
  pub lane-and : (x y : Reg) (i : ℕ) → i < lanes → lane (and x y) i ≡ bit_and (lane x i) (lane y i)
  pub movemask_lanes : (x : Reg) → movemask x ≡ mask_of lanes (λ i. leb 0x80 (lane x i))

-- What the C functions hold in `Init`, `Mask` and `RemainingSize`.
pub record Chunk : Type 0 where
  pub init : ℕ
  pub mask : ℕ
  pub remaining : ℕ

-- The byte by byte loop at the end of the search, with `PartialIdx`.
pub scalar_tail : Mem → (needle base write_cur partial_idx : ℕ) → ℕ
scalar_tail m needle base write_cur partial_idx =
    elim (search_up (λ i. m (base + i) == needle) write_cur 0) [
      | some i ↦ add_usz i partial_idx
      | none ↦ invalid_idx
    ]

module _ {lanes : ℕ} (v : Vector lanes) where
  -- `_mm_movemask_epi8(_mm_cmpeq_epi8(Chunk, Match))`
  pub match_mask : Mem → (needle address : ℕ) → ℕ
  match_mask m needle address = v.movemask (v.cmpeq (v.load m address) (v.set1 needle))

  -- `while (RemainingSize >= XMM_SIZE && Mask == 0)`, on fuel.
  unfoldable pub chunk_loop : (fuel : ℕ) → Mem → (needle : ℕ) → Chunk → Chunk
  unfolding match_mask
  chunk_loop zero m needle c = c
  chunk_loop (suc fuel) m needle c =
      let next = add_usz (c.init) lanes in
      let rest = chunk_loop fuel m needle (record {
        init = next;
        mask = match_mask m needle next;
        remaining = sub_usz (c.remaining) lanes;
      }) in
      if leb lanes (c.remaining) && (c.mask == 0) then rest else c

  -- The state before the loop: `Init` is `Base` rounded down to a block, `Offset` is the distance
  -- between them, and the bytes in front of `Base` are masked off.
  pub first_chunk : Mem → (needle : ℕ) → Buffer → Chunk
  unfolding match_mask
  first_chunk m needle h =
      let init = bit_and (sub_usz 0 lanes) (h.base) in
      let offset = bit_and (lanes - 1) (h.base) in
      record {
        init = init;
        mask = bit_and (match_mask m needle init) (u32 (0xFFFF_FFFF <<< offset));
        remaining = sub_usz (h.write_cur) (sub_usz lanes offset);
      }

module _ (t : Target) {lanes : ℕ} (v : Vector lanes) where
  -- What follows the loop over the blocks, in the haystack `h`.
  pub chunk_result : Mem → (needle : ℕ) → Buffer → Chunk → ℕ
  unfolding scalar_tail
  chunk_result m needle h c =
      let next = add_usz (c.init) lanes in
      if c.mask == 0
      then scalar_tail m needle next (c.remaining) (sub_usz next (h.base))
      else let found = add_usz (sub_usz (c.init) (h.base)) (get_first_bit_set t (c.mask)) in
        if found == invalid_idx then scalar_tail m needle (h.base) (h.write_cur) 0 else found

  pub byte_in_buffer_idx_blocks : Mem → (needle : ℕ) → Buffer → ℕ
  unfolding first_chunk chunk_loop chunk_result scalar_tail
  byte_in_buffer_idx_blocks m needle h =
      if ltb lanes (h.write_cur)
      then chunk_result m needle h (chunk_loop v (h.write_cur) m needle (first_chunk v m needle h))
      else scalar_tail m needle (h.base) (h.write_cur) 0
