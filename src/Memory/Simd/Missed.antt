-- ===== src/Memory/Simd/Missed.antt =====
-- The places that `_BufferInBufferIdxAVX2` reports, against those that hold the needle.
use tiny_base.Base.{
  ℕ, zero, suc, ◌+◌, ◌-◌, ◌*◌, ◌/◌, ◌^◌, ◌<◌, ◌≤◌, ◌≡◌, refl, Bool, true, false, ◌&&◌, Option,
  arith, inl, inr, Bool-cases, ◌==◌, leb,
}
use tiny_base.Base.Loop.{search_up, search_up-IsFirst}
use tiny_base.Mem.{Mem, bytes, memcmp_equal}
use tiny_base.Memory.{Buffer, contents, IsReadable, idx_or_invalid}
use tiny_base.Memory.Search.Spec.{IsLeast}
use tiny_base.Memory.Search.Portable.{IsFirst-IsLeast}
use tiny_base.Memory.Simd.{Vector}
use tiny_base.Memory.Simd.Needle.{buffer_in_buffer_idx_avx2}
use tiny_base.Memory.Simd.Avx2.{matches, avx2_blocks_lem, memcmp_equal-bytes}
use tiny_base.Types.FirstBit.{Target, IsCtz}

memcmp_first : (m : Mem) (a b n : ℕ) → 0 < n → memcmp_equal m a b n ≡ true → (m a == m b) ≡ true
memcmp_first m a b zero pos e = absurd (omega arith)
memcmp_first m a b (suc n) pos e = elim (Bool-cases (m a == m b)) [
  | inl t ↦ t
  | inr f ↦ absurd (ground (arith, rw f at e))
]

-- The bytes from index `i` on, inside the haystack or behind it, are those of the needle, and a
-- block that starts in front of the last place covers `i`.
abbrev pub SeenAt : Mem → Buffer → Buffer → ℕ → Type 0
SeenAt m needle h i =
    (i < (h.write_cur - needle.write_cur + 31) / 32 * 32)
    × (bytes m (h.base + i) (needle.write_cur) ≡ contents m needle)

-- For a nonempty needle that is no longer than the haystack, 32 bytes in front of the end of the
-- address space, the AVX2 search gives the least index `i` below `size / 32 * 32` at which the
-- memory holds the needle's bytes, where `size` is 31 more than the difference of the two lengths,
-- and INVALID_IDX where there is none. The range misses the last place where that difference is a
-- multiple of 32, and goes past it otherwise, to places where the needle ends behind the haystack.
pub buffer_in_buffer_idx_avx2-SeenAt :
    (t : Target) (v : Vector 32) (m : Mem) (needle h : Buffer)
    → IsCtz (t.ctz)
    → 0 < needle.write_cur
    → needle.write_cur ≤ h.write_cur
    → h.base + h.write_cur + 32 < 2 ^ 64
    → (o : Option ℕ) × IsLeast (SeenAt m needle h) o
      × (buffer_in_buffer_idx_avx2 t v m needle h ≡ idx_or_invalid o)
unfolding buffer_in_buffer_idx_avx2 matches
buffer_in_buffer_idx_avx2-SeenAt t v m needle h ok pos le room =
    let rh : IsReadable h = omega arith in
    let range = (h.write_cur - needle.write_cur + 31) / 32 * 32 in
    let found = search_up (matches t v ok m needle h rh) range 0 in
    let fits : leb (needle.write_cur) (h.write_cur) ≡ true = ground arith in
    let start : h.base + 0 ≡ h.base = omega arith in
    let all : h.write_cur - needle.write_cur - 0 ≡ h.write_cur - needle.write_cur = omega arith in
    let e =
      rw (start, all) at
        (avx2_blocks_lem t v ok m needle h rh (h.write_cur) 0 room le (omega arith)) in
    (
      found,
      IsFirst-IsLeast (matches t v ok m needle h rh) (SeenAt m needle h) range
          (λ i lt q. (
            lt,
            (memcmp_equal-bytes m (h.base + i) (needle.base) (needle.write_cur)).0 (second _ _ q),
          ))
          (λ i (lt, q). (
            lt,
            whole i ((memcmp_equal-bytes m (h.base + i) (needle.base) (needle.write_cur)).1 q),
          ))
          found (search_up-IsFirst (matches t v ok m needle h rh) range 0 range (omega arith)),
      rw fits e,
    )
  where
    second : (p q : Bool) → (p && q) ≡ true → q ≡ true
    second true q e = e
    second false q e = absurd (ground arith)

    whole :
        (i : ℕ)
        → memcmp_equal m (h.base + i) (needle.base) (needle.write_cur) ≡ true
        → ((m (h.base + i) == m (needle.base))
            && memcmp_equal m (h.base + i) (needle.base) (needle.write_cur))
          ≡ true
    whole i e = rw (memcmp_first m (h.base + i) (needle.base) (needle.write_cur) pos e, e) refl
