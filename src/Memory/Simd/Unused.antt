-- ===== src/Memory/Simd/Unused.antt =====
-- What the unused `__BufferInBufferIdxAVX2` does.
use tiny_base.Base.{
  ℕ, zero, suc, ◌+◌, ◌^◌, ◌<◌, ◌≤◌, ◌≡◌, refl, ap, Bool, true, false, ◌&&◌, Option, none, some,
  arith, inl, inr, Bool-cases, ◌==◌, leb, if◌then◌else◌, not,
}
use tiny_base.Base.Word.{sub_usz}
use tiny_base.Mem.{Mem}
use tiny_base.Memory.{Buffer, buffer, IsReadable}
use tiny_base.Memory.Compare.{equal_buffers}
use tiny_base.Memory.Search.{buffer_in_buffer_idx_simple}
use tiny_base.Memory.Simd.{Vector}
use tiny_base.Memory.Simd.Needle.{last_matches, buffer_in_buffer_idx_avx2_unused, long_blocks}
use tiny_base.Memory.Simd.Sse3.{blocks-simple}
use tiny_base.Memory.Simd.Blocks.{thirty_two-IsBlock}
use tiny_base.Types.FirstBit.{Target, IsCtz}

-- For a needle of 1 to 15 bytes and a readable haystack, the unused AVX2 search ends and gives what
-- the portable loop gives, with any fuel and whatever `_mm_cmpistri` computes.
pub buffer_in_buffer_idx_avx2_unused-simple :
    (t : Target) (v : Vector 32) (cmpistri : Mem → (a b : ℕ) → ℕ) (m : Mem) (needle h : Buffer)
    (fuel : ℕ)
    → IsCtz (t.ctz)
    → 0 < needle.write_cur
    → needle.write_cur < 16
    → IsReadable h
    → buffer_in_buffer_idx_avx2_unused t v cmpistri m needle h fuel
      ≡ some (buffer_in_buffer_idx_simple m needle h)
unfolding buffer_in_buffer_idx_avx2_unused buffer_in_buffer_idx_simple
buffer_in_buffer_idx_avx2_unused-simple t v cmpistri m needle h fuel ok pos short rh =
    let short' : leb 16 (needle.write_cur) ≡ false = ground arith in
    elim (Bool-cases (leb (needle.write_cur) (h.write_cur))) [
      | inl e ↦
          rw (e, short')
            (ap some (blocks-simple t v thirty_two-IsBlock ok m needle h pos rh (ground arith)))
      | inr f ↦ rw f refl
    ]

-- Where a needle of 16 bytes or more starts as the haystack does and is not there, and
-- `_mm_cmpistri` gives 0 for two equal blocks, the unused search does not move on.
pub long_blocks-stays :
    (t : Target) (v : Vector 32) (cmpistri : Mem → (a b : ℕ) → ℕ) (m : Mem) (needle h : Buffer)
    (fuel : ℕ)
    → 16 ≤ needle.write_cur
    → needle.write_cur ≤ h.write_cur
    → h.write_cur < 2 ^ 64
    → cmpistri m (needle.base) (h.base) ≡ 0
    → equal_buffers m (buffer (h.base) (needle.write_cur) 0) needle ≡ false
    → buffer_in_buffer_idx_avx2_unused t v cmpistri m needle h fuel ≡ none
unfolding buffer_in_buffer_idx_avx2_unused
long_blocks-stays t v cmpistri m needle h fuel ge le small zero' differ =
    let fits : leb (needle.write_cur) (h.write_cur) ≡ true = ground arith in
    let long : leb 16 (needle.write_cur) ≡ true = ground arith in rw (fits, long) (stays fuel)
  where
    skip :
        (p : Bool) (found rest : Option ℕ)
        → rest ≡ none
        → (if p && false then found else rest) ≡ none
    skip true found rest e = e
    skip false found rest e = e

    stays : (fuel : ℕ) → long_blocks t v cmpistri m needle h fuel (h.base) (h.write_cur) ≡ none
    stays zero = refl
    stays (suc fuel) =
        let offset = cmpistri m (needle.base) (h.base) in
        let here : h.base + offset ≡ h.base = omega arith in
        let left : sub_usz (h.write_cur) offset ≡ h.write_cur = omega arith in
        let block : leb 16 (h.write_cur) ≡ true = ground arith in
        rw (block, here, left, differ)
          (skip
            (not (offset == 16)
              && leb (needle.write_cur) (h.write_cur)
              && last_matches m needle (h.base))
            _ _ (stays fuel))
