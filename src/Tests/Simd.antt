-- ===== src/Tests/Simd.antt =====
-- The block searches on registers that are lists of lanes, and their theorems at concrete inputs.
use Prim.Native.Nat.{bit_and}
use tiny_base.Base.{ℕ, ◌+◌, ◌≡◌, ◌↔◌, refl, false, Option, arith, leb, ◌==◌, if◌then◌else◌, [], ◌∷◌}
use tiny_base.Mem.{Mem}
use tiny_base.Memory.{Buffer, buffer, idx_or_invalid}
use tiny_base.Memory.Search.{portable, byte_in_buffer_idx_simple, buffer_in_buffer_idx_simple}
use tiny_base.Memory.Search.Spec.{IsLeast, IsCorrect}
use tiny_base.Memory.Search.Portable.{portable-IsCorrect}
use tiny_base.Memory.Simd.{Vector, mask_of, byte_in_buffer_idx_blocks}
use tiny_base.Memory.Simd.Needle.{buffer_in_buffer_idx_sse3, buffer_in_buffer_idx_avx2}
use tiny_base.Memory.Simd.Blocks.{thirty_two-IsBlock, byte_in_buffer_idx_blocks-simple}
use tiny_base.Memory.Simd.Sse3.{buffer_in_buffer_idx_sse3-simple}
use tiny_base.Memory.Simd.Missed.{SeenAt, buffer_in_buffer_idx_avx2-SeenAt}
use tiny_base.Memory.Simd.Install.{CpuId, init_buffers_arch, uses_avx2, init_buffers_arch-IsCorrect}
use tiny_base.Types.FirstBit.{msvc, gcc, Target, get_first_bit_set, IsCtz}
use tiny_base.Types.FirstBit.Laws.{de_bruijn-IsCtz, get_first_bit_set-IsLowestBit}
use tiny_base.Tests.Data.{place, zeros}

-- A register is the function from lanes to bytes.
abbrev lanewise : (lanes : ℕ) → Vector lanes
lanewise lanes = record {
  Reg = ℕ → ℕ;
  lane = λ x i. x i;
  load = λ m a i. m (a + i);
  set1 = λ b i. b;
  cmpeq = λ x y i. if x i == y i then 0xFF else 0;
  and = λ x y i. bit_and (x i) (y i);
  movemask = λ x. mask_of lanes (λ i. leb 0x80 (x i));
  lane-load = λ m a i lt. refl;
  lane-set1 = λ b i lt. refl;
  lane-cmpeq = λ x y i lt. refl;
  lane-and = λ x y i lt. refl;
  movemask_lanes = λ x. refl;
}

-- A count of trailing zeros.
abbrev count_zeros : ℕ → ℕ
count_zeros = get_first_bit_set (record { compiler = msvc; ctz = λ _. 0 })

count_zeros-IsCtz : IsCtz count_zeros
count_zeros-IsCtz = de_bruijn-IsCtz (λ _. 0)

abbrev windows : Target
windows = record { compiler = msvc; ctz = count_zeros }

abbrev linux : Target
linux = record { compiler = gcc; ctz = count_zeros }

-- A 7 at 1003, in front of the haystack, and at 1030; "an" behind it, across two blocks.
abbrev spread : Mem
spread = place 1003 (7 ∷ []) (place 1030 (7 ∷ 97 ∷ 110 ∷ []) (place 200 (97 ∷ 110 ∷ []) zeros))

abbrev long : Buffer
long = buffer 1004 48 0

abbrev needle : Buffer
needle = buffer 200 2 0

byte_in_buffer_idx_blocks-simple_example :
    byte_in_buffer_idx_blocks linux (lanewise 32) spread 7 long
    ≡ byte_in_buffer_idx_simple spread 7 long
byte_in_buffer_idx_blocks-simple_example =
    byte_in_buffer_idx_blocks-simple linux (lanewise 32) spread 7 long count_zeros-IsCtz
      thirty_two-IsBlock (omega arith)

buffer_in_buffer_idx_sse3-simple_example :
    buffer_in_buffer_idx_sse3 windows (lanewise 16) spread needle long
    ≡ buffer_in_buffer_idx_simple spread needle long
buffer_in_buffer_idx_sse3-simple_example =
    buffer_in_buffer_idx_sse3-simple windows (lanewise 16) spread needle long count_zeros-IsCtz
      (omega arith) (omega arith) (omega arith)

buffer_in_buffer_idx_avx2-SeenAt_example :
    (o : Option ℕ) × IsLeast (SeenAt spread needle long) o
    × (buffer_in_buffer_idx_avx2 windows (lanewise 32) spread needle long ≡ idx_or_invalid o)
buffer_in_buffer_idx_avx2-SeenAt_example =
    buffer_in_buffer_idx_avx2-SeenAt windows (lanewise 32) spread needle long count_zeros-IsCtz
      (omega arith) (omega arith) (omega arith)

-- A processor with SSE2 and SSE3, and without AVX2.
abbrev old_cpu : CpuId
old_cpu = record { leaf1_ecx = 1; leaf1_edx = 0x400_0000; leaf7a_ebx = 0 }

init_buffers_arch-IsCorrect_example :
    IsCorrect (init_buffers_arch windows (lanewise 16) (lanewise 32) old_cpu portable)
    ↔ (uses_avx2 windows (lanewise 16) (lanewise 32) old_cpu ≡ false)
init_buffers_arch-IsCorrect_example =
    init_buffers_arch-IsCorrect windows (lanewise 16) (lanewise 32) count_zeros-IsCtz old_cpu
      portable portable-IsCorrect

get_first_bit_set-IsLowestBit_example : get_first_bit_set windows 40 ≡ 3
get_first_bit_set-IsLowestBit_example =
    get_first_bit_set-IsLowestBit windows 40 3 count_zeros-IsCtz (omega arith) (2, refl)
