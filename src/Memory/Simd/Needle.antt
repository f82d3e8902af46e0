-- ===== src/Memory/Simd/Needle.antt =====
-- `_BufferInBufferIdxSSE3`, `_BufferInBufferIdxAVX2` and the unused `__BufferInBufferIdxAVX2` of src/tinybase-memory.c. The fuel of a loop
-- is the number of bits or of bytes that it can go over.
use tiny_base.Base.{
  ℕ, zero, suc, ◌+◌, Bool, ◌&&◌, Option, none, some, ltb, leb, ◌==◌, not, if◌then◌else◌,
}
use tiny_base.Base.Word.{add_usz, sub_usz}
use tiny_base.Mem.{Mem, memcmp_equal}
use tiny_base.Memory.{Buffer, buffer, invalid_idx}
use tiny_base.Memory.Compare.{equal_buffers}
use tiny_base.Memory.Simd.{Vector, match_mask}
use tiny_base.Types.FirstBit.{Target, get_first_bit_set, flip_bit, clear_bit}

-- `while (Mask != 0)`: the first bit of the mask that passes the test; the others are cleared.
unfoldable pub first_match :
    Target → (clear : ℕ → ℕ → ℕ) (test : ℕ → Bool) (fuel mask : ℕ) → Option ℕ
first_match t clear test zero mask = none
first_match t clear test (suc fuel) mask =
    let bit_pos = get_first_bit_set t mask in
    let rest = first_match t clear test fuel (clear mask bit_pos) in
    if mask == 0 then none else if test bit_pos then some bit_pos else rest

-- The byte `Ptr[Needle.WriteCur-1]` against that of the needle
unfoldable pub last_matches : Mem → (needle : Buffer) (ptr : ℕ) → Bool
last_matches m needle ptr =
    m (add_usz ptr (sub_usz (needle.write_cur) 1))
    == m (add_usz (needle.base) (sub_usz (needle.write_cur) 1))

module _ (t : Target) {lanes : ℕ} (v : Vector lanes) (m : Mem) (needle h : Buffer) where
  -- `HaystackPtr[MatchIdx]` starts the needle, in the `remaining` bytes from `HaystackPtr` on.
  unfoldable pub fits_and_matches : (haystack_ptr remaining match_idx : ℕ) → Bool
  unfolding last_matches
  fits_and_matches haystack_ptr remaining match_idx =
      leb (needle.write_cur) (sub_usz remaining match_idx)
      && last_matches m needle (haystack_ptr + match_idx)
      && equal_buffers m (buffer (haystack_ptr + match_idx) (needle.write_cur) 0) needle

  -- `while (HaystackRemaining >= Needle.WriteCur)`
  unfoldable pub needle_tail : (fuel haystack_ptr remaining : ℕ) → ℕ
  unfolding last_matches
  needle_tail zero haystack_ptr remaining = invalid_idx
  needle_tail (suc fuel) haystack_ptr remaining =
      let rest = needle_tail fuel (haystack_ptr + 1) (sub_usz remaining 1) in
      if leb (needle.write_cur) remaining
      then if (m haystack_ptr == m (needle.base)) && last_matches m needle haystack_ptr
        then if equal_buffers m (buffer haystack_ptr (needle.write_cur) 0) needle
          then sub_usz haystack_ptr (h.base)
          else rest
        else rest
      else invalid_idx

  -- `while (HaystackRemaining >= XMM_SIZE && HaystackRemaining >= Needle.WriteCur)`
  unfoldable pub needle_blocks : (fuel haystack_ptr remaining : ℕ) → ℕ
  unfolding fits_and_matches needle_tail first_match match_mask
  needle_blocks zero haystack_ptr remaining = needle_tail (h.write_cur) haystack_ptr remaining
  needle_blocks (suc fuel) haystack_ptr remaining =
      let rest = needle_blocks fuel (haystack_ptr + lanes) (sub_usz remaining lanes) in
      if leb lanes remaining && leb (needle.write_cur) remaining
      then elim (first_match t clear_bit (fits_and_matches haystack_ptr remaining) lanes
          (match_mask v m (m (needle.base)) haystack_ptr)) [
            | some match_idx ↦ sub_usz (h.write_cur) (sub_usz remaining match_idx)
            | none ↦ rest
          ]
      else needle_tail (h.write_cur) haystack_ptr remaining

module _ (t : Target) (v : Vector 16) (m : Mem) (needle h : Buffer) where
  unfoldable pub buffer_in_buffer_idx_sse3 : ℕ
  unfolding needle_blocks
  buffer_in_buffer_idx_sse3 =
      if leb (needle.write_cur) (h.write_cur)
      then needle_blocks t v m needle h (h.write_cur) (h.base) (h.write_cur)
      else invalid_idx

module _ (t : Target) (v : Vector 32) (m : Mem) (needle h : Buffer) where
  -- `_mm256_cmpeq_epi8(LastByte, LastByte)`: the block at the needle's end is not looked at.
  unfoldable pub avx2_mask : (ptr : ℕ) → ℕ
  avx2_mask ptr =
      let first_byte = v.set1 (m (needle.base)) in
      let last_byte = v.set1 (m (add_usz (needle.base) (sub_usz (needle.write_cur) 1))) in
      let first_cmp = v.cmpeq first_byte (v.load m ptr) in
      let last_cmp = v.cmpeq last_byte last_byte in v.movemask (v.and first_cmp last_cmp)

  -- `Ptr < (Haystack.Base+Haystack.WriteCur-Needle.WriteCur)`
  abbrev pub in_front : (ptr : ℕ) → Bool
  in_front ptr = ltb ptr (sub_usz (add_usz (h.base) (h.write_cur)) (needle.write_cur))

  -- The loop at the end, which goes on under the condition that the loop over the blocks ends by.
  unfoldable pub avx2_tail : (fuel ptr : ℕ) → ℕ
  unfolding last_matches
  avx2_tail zero ptr = invalid_idx
  avx2_tail (suc fuel) ptr =
      let rest = avx2_tail fuel (ptr + 1) in
      if in_front ptr
      then if (m ptr == m (needle.base)) && last_matches m needle ptr
        then if memcmp_equal m ptr (needle.base) (needle.write_cur)
          then sub_usz ptr (h.base)
          else rest
        else rest
      else invalid_idx

  -- `for (Ptr = Haystack.Base; Ptr < ...; Ptr += 32)`
  unfoldable pub avx2_blocks : (fuel ptr : ℕ) → ℕ
  unfolding avx2_mask first_match avx2_tail
  avx2_blocks zero ptr = avx2_tail (h.write_cur) ptr
  avx2_blocks (suc fuel) ptr =
      let rest = avx2_blocks fuel (ptr + 32) in
      if in_front ptr
      then elim (first_match t flip_bit
          (λ i. memcmp_equal m (ptr + i) (needle.base) (needle.write_cur)) 32 (avx2_mask ptr)) [
            | some bit_pos ↦ sub_usz (ptr + bit_pos) (h.base)
            | none ↦ rest
          ]
      else avx2_tail (h.write_cur) ptr

  unfoldable pub buffer_in_buffer_idx_avx2 : ℕ
  unfolding avx2_blocks avx2_tail
  buffer_in_buffer_idx_avx2 =
      if leb (needle.write_cur) (h.write_cur)
      then avx2_blocks (h.write_cur) (h.base)
      else invalid_idx

-- `_mm_cmpistri(a, b, CMP_FLAGS)`, a parameter, with the addresses that `a` and `b` are loaded from.
module _ (t : Target) (v : Vector 32) (cmpistri : Mem → (a b : ℕ) → ℕ) (m : Mem)
    (needle h : Buffer) where
  -- `while (HaystackRemaining >= XMM128_SIZE)`
  unfoldable pub long_blocks : (fuel haystack_ptr remaining : ℕ) → Option ℕ
  unfolding last_matches needle_tail
  long_blocks zero haystack_ptr remaining = none
  long_blocks (suc fuel) haystack_ptr remaining =
      let offset = cmpistri m (needle.base) haystack_ptr in
      let ptr = haystack_ptr + offset in
      let left = sub_usz remaining offset in
      let rest = long_blocks fuel ptr left in
      if leb 16 remaining
      then if not (offset == 16)
          && leb (needle.write_cur) left
          && last_matches m needle ptr
          && equal_buffers m (buffer ptr (needle.write_cur) 0) needle
        then some (sub_usz (h.write_cur) left)
        else rest
      else some (needle_tail t v m needle h (h.write_cur) haystack_ptr remaining)

  -- `none` where the fuel does not suffice.
  unfoldable pub buffer_in_buffer_idx_avx2_unused : (fuel : ℕ) → Option ℕ
  unfolding long_blocks needle_blocks
  buffer_in_buffer_idx_avx2_unused fuel =
      if leb (needle.write_cur) (h.write_cur)
      then if leb 16 (needle.write_cur)
        then long_blocks fuel (h.base) (h.write_cur)
        else some (needle_blocks t v m needle h (h.write_cur) (h.base) (h.write_cur))
      else some invalid_idx
