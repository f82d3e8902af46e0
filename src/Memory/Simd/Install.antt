-- ===== src/Memory/Simd/Install.antt =====
-- LoadCPUArch of src/tinybase-types.h and InitBuffersArch of src/tinybase-memory.c, on x64: which
-- searches the module uses after them.
use Prim.Native.Nat.{bit_and}
use tiny_base.Base.{
  ℕ, ◌+◌, ◌^◌, ◌<◌, ◌≡◌, ◌↔◌, refl, sym, ◌∙◌, ap, Bool, true, false, not, Option, none, some, arith,
  inl, inr, Bool-cases, ◌==◌, if◌then◌else◌,
}
use tiny_base.Base.Word.{◌>>>◌}
use tiny_base.Mem.{Mem}
use tiny_base.Memory.{Buffer, buffer, idx_or_invalid, invalid_idx}
use tiny_base.Memory.Search.{Kernels}
use tiny_base.Memory.Search.Spec.{IsCorrect, IsLeast, OccursAt}
use tiny_base.Memory.Search.Portable.{portable-IsCorrect}
use tiny_base.Memory.Simd.{Vector, byte_in_buffer_idx_blocks}
use tiny_base.Memory.Simd.Blocks.{byte_in_buffer_idx_blocks-simple, sixteen-IsBlock}
use tiny_base.Memory.Simd.Needle.{buffer_in_buffer_idx_sse3, buffer_in_buffer_idx_avx2}
use tiny_base.Memory.Simd.Sse3.{buffer_in_buffer_idx_sse3-simple}
use tiny_base.Memory.Simd.Missed.{SeenAt, buffer_in_buffer_idx_avx2-SeenAt}
use tiny_base.Types.FirstBit.{Compiler, msvc, gcc, Target, IsCtz}

-- The words of `CPUIDLeaf1[2]`, `CPUIDLeaf1[3]` and `CPUIDLeaf7a[1]`, or what CPUID would give.
pub record CpuId : Type 0 where
  pub leaf1_ecx : ℕ
  pub leaf1_edx : ℕ
  pub leaf7a_ebx : ℕ

-- The arrays keep their initial zeros in a build that is not for MSVC.
pub load_cpu_arch : Compiler → CpuId → CpuId
load_cpu_arch msvc cpu = cpu
load_cpu_arch gcc cpu = record { leaf1_ecx = 0; leaf1_edx = 0; leaf7a_ebx = 0 }

-- `Word >> Bit & 1`
abbrev pub cpu_has : ℕ → ℕ → Bool
cpu_has word bit = not (bit_and (word >>> bit) 1 == 0)

module _ (t : Target) (v16 : Vector 16) (v32 : Vector 32) where
  pub byte_in_buffer_idx_sse2 : Mem → (needle : ℕ) → Buffer → ℕ
  byte_in_buffer_idx_sse2 = byte_in_buffer_idx_blocks t v16

  pub byte_in_buffer_idx_avx2 : Mem → (needle : ℕ) → Buffer → ℕ
  byte_in_buffer_idx_avx2 = byte_in_buffer_idx_blocks t v32

  pub init_buffers_arch : CpuId → Kernels → Kernels
  unfolding load_cpu_arch byte_in_buffer_idx_sse2 byte_in_buffer_idx_avx2
  init_buffers_arch cpu k =
      let c = load_cpu_arch (t.compiler) cpu in
      let k1 =
        if cpu_has (c.leaf1_edx) 26
        then record k { byte_in_buffer_idx = byte_in_buffer_idx_sse2 }
        else k in
      let k2 =
        if cpu_has (c.leaf1_ecx) 0
        then record k1 { buffer_in_buffer_idx = buffer_in_buffer_idx_sse3 t v16 }
        else k1 in
      if cpu_has (c.leaf7a_ebx) 5
      then record {
        byte_in_buffer_idx = byte_in_buffer_idx_avx2;
        buffer_in_buffer_idx = buffer_in_buffer_idx_avx2 t v32;
      }
      else k2

  -- Whether InitBuffersArch goes by AVX2.
  pub uses_avx2 : CpuId → Bool
  unfolding load_cpu_arch
  uses_avx2 cpu = cpu_has ((load_cpu_arch (t.compiler) cpu).leaf7a_ebx) 5

module _ (t : Target) (v16 : Vector 16) (v32 : Vector 32) (ok : IsCtz (t.ctz)) where
  with_sse2 :
      (k : Kernels)
      → IsCorrect k
      → IsCorrect (record k { byte_in_buffer_idx = byte_in_buffer_idx_sse2 t v16 v32 })
  unfolding byte_in_buffer_idx_sse2
  with_sse2 k c = record {
    finds_byte = λ m needle h rh.
        rw (byte_in_buffer_idx_blocks-simple t v16 m needle h ok sixteen-IsBlock rh)
          (portable-IsCorrect.finds_byte m needle h rh);
    finds_buffer = c.finds_buffer;
  }

  with_sse3 :
      (k : Kernels)
      → IsCorrect k
      → IsCorrect (record k { buffer_in_buffer_idx = buffer_in_buffer_idx_sse3 t v16 })
  with_sse3 k c = record {
    finds_byte = c.finds_byte;
    finds_buffer = λ m needle h pos rn rh.
        rw (buffer_in_buffer_idx_sse3-simple t v16 m needle h ok pos rn rh)
          (portable-IsCorrect.finds_buffer m needle h pos rn rh);
  }

  with_first :
      (has_sse2 : Bool) {k : Kernels}
      → IsCorrect k
      → IsCorrect (
          if has_sse2
          then record k { byte_in_buffer_idx = byte_in_buffer_idx_sse2 t v16 v32 }
          else k)
  with_first true c = with_sse2 _ c
  with_first false c = c

  with_both :
      (has_sse3 : Bool) {k : Kernels}
      → IsCorrect k
      → IsCorrect (
          if has_sse3
          then record k { buffer_in_buffer_idx = buffer_in_buffer_idx_sse3 t v16 }
          else k)
  with_both true c = with_sse3 _ c
  with_both false c = c

  -- A needle as long as the haystack is not found, even where the two are the same.
  avx2_misses :
      (m : Mem) (b : Buffer)
      → 0 < b.write_cur
      → b.base + b.write_cur + 32 < 2 ^ 64
      → buffer_in_buffer_idx_avx2 t v32 m b b ≡ invalid_idx
  avx2_misses m b pos room =
      let (o, least, e) = buffer_in_buffer_idx_avx2-SeenAt t v32 m b b ok pos (omega arith) room in
      nowhere o least e
    where
      nowhere :
          (o : Option ℕ)
          → IsLeast (SeenAt m b b) o
          → buffer_in_buffer_idx_avx2 t v32 m b b ≡ idx_or_invalid o
          → buffer_in_buffer_idx_avx2 t v32 m b b ≡ invalid_idx
      nowhere none least e = e
      nowhere (some i) least e = let lt = least.0.0 in absurd (omega arith)

  avx2-not_IsCorrect :
      (k : Kernels) → k.buffer_in_buffer_idx ≡ buffer_in_buffer_idx_avx2 t v32 → ¬ IsCorrect k
  avx2-not_IsCorrect k e c =
      let m : Mem = λ x. 7 in
      let b = buffer 100 1 0 in
      let (o, least, e') = c.finds_buffer m b b (omega arith) (omega arith) (omega arith) in
      let is : k.buffer_in_buffer_idx m b b ≡ invalid_idx =
        ap (λ f. f m b b) e ∙ avx2_misses m b (omega arith) (omega arith) in
      nowhere o least (sym e' ∙ is)
    where
      nowhere :
          (o : Option ℕ)
          → IsLeast (OccursAt (λ x. 7) (buffer 100 1 0) (buffer 100 1 0)) o
          → idx_or_invalid o ≡ invalid_idx
          → ⊥
      nowhere none least e = least 0 (omega arith, refl)
      nowhere (some i) least e = let le = least.0.0 in absurd (omega arith)

  -- Whatever the processor has and whichever correct searches were there before, the searches that
  -- InitBuffersArch leaves are correct exactly where it does not go by AVX2.
  pub init_buffers_arch-IsCorrect :
      (cpu : CpuId) (k : Kernels)
      → IsCorrect k
      → IsCorrect (init_buffers_arch t v16 v32 cpu k) ↔ (uses_avx2 t v16 v32 cpu ≡ false)
  unfolding init_buffers_arch uses_avx2
  init_buffers_arch-IsCorrect cpu k c = elim (Bool-cases (uses_avx2 t v16 v32 cpu)) [
    | inl e ↦ rw e (λ h. absurd (avx2-not_IsCorrect _ refl h), λ f. absurd (ground (arith, f)))
    | inr f ↦ rw f (
      λ h. refl,
      λ g.
          with_both (cpu_has ((load_cpu_arch (t.compiler) cpu).leaf1_ecx) 0)
            (with_first (cpu_has ((load_cpu_arch (t.compiler) cpu).leaf1_edx) 26) c),
    )
  ]
