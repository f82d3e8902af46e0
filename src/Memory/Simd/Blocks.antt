-- ===== src/Memory/Simd/Blocks.antt =====
-- The byte search by blocks finds what the portable loop finds.
use Prim.Native.Nat.{bit_and}
use native.Mathlib.Nat.{mod-lt, div-add-mod'}
use tiny_base.Base.{
  ℕ, ◌+◌, ◌-◌, ◌*◌, ◌/◌, ◌%◌, ◌^◌, ◌<◌, ◌≤◌, ◌≡◌, ◌∙◌, ap, arith, inl, inr, Bool-cases, ◌==◌, ltb,
}
use tiny_base.Base.Bits.{bit_and_comm, bit_and-field, and_low_ones}
use tiny_base.Base.Loop.{search_up, search_up_ext}
use tiny_base.Base.Word.{sub_usz}
use tiny_base.Mem.{Mem}
use tiny_base.Memory.{Buffer, IsReadable, idx_or_invalid}
use tiny_base.Memory.Search.{byte_in_buffer_idx_simple}
use tiny_base.Memory.Simd.{Vector, first_chunk, byte_in_buffer_idx_blocks}
use tiny_base.Memory.Simd.Mask.{match_mask_lem, mask_from}
use tiny_base.Memory.Simd.Byte.{Scans, loop, tail}
use tiny_base.Types.FirstBit.{Target, IsCtz}

-- A block size: rounding down to it, and the rest, by masks.
pub record IsBlock (lanes : ℕ) : Type 0 where
  pub positive : 0 < lanes
  pub small : lanes ≤ 32
  pub round_down : (b : ℕ) → b < 2 ^ 64 → bit_and (sub_usz 0 lanes) b ≡ b / lanes * lanes
  pub rest : (b : ℕ) → bit_and (lanes - 1) b ≡ b % lanes

pub sixteen-IsBlock : IsBlock 16
sixteen-IsBlock = record {
  positive = omega arith;
  small = omega arith;
  round_down = λ b lt. bit_and_comm (sub_usz 0 16) b ∙ bit_and-field 60 4 b ∙ omega arith;
  rest = λ b. bit_and_comm 15 b ∙ and_low_ones 4 b;
}

pub thirty_two-IsBlock : IsBlock 32
thirty_two-IsBlock = record {
  positive = omega arith;
  small = omega arith;
  round_down = λ b lt. bit_and_comm (sub_usz 0 32) b ∙ bit_and-field 59 5 b ∙ omega arith;
  rest = λ b. bit_and_comm 31 b ∙ and_low_ones 5 b;
}

-- The portable loop puts the two sides of its test the other way round.
expected_simple :
    (m : Mem) (needle : ℕ) (h : Buffer)
    → idx_or_invalid (search_up (λ i. m (h.base + i) == needle) (h.write_cur - 0) 0)
      ≡ byte_in_buffer_idx_simple m needle h
unfolding byte_in_buffer_idx_simple
expected_simple m needle h =
    let e : h.write_cur - 0 ≡ h.write_cur = omega arith in
    rw e (ap idx_or_invalid (search_up_ext _ _ (h.write_cur) 0 (λ j a b. ground arith)))

first_chunk-Scans :
    (t : Target) {lanes : ℕ} (v : Vector lanes) (m : Mem) (needle : ℕ) (h : Buffer)
    (ok : IsCtz (t.ctz)) (b : IsBlock lanes) (rh : IsReadable h)
    → lanes < h.write_cur
    → Scans t v ok
        (b.positive)
        (b.small)
        m
        needle
        h
        rh
        0
        (h.base % lanes)
        (first_chunk v m needle h)
unfolding first_chunk
first_chunk-Scans t {lanes} v m needle h ok b rh lt =
    let below : h.base % lanes < lanes = mod-lt (h.base) (b.positive) in
    let base64 : h.base < 2 ^ 64 = omega arith in
    record {
      inside = omega (arith, below);
      place = rw (b.round_down (h.base) base64) (div-add-mod' (h.base) lanes ∙ omega arith);
      bits =
          rw (b.rest (h.base), match_mask_lem v m needle (bit_and (sub_usz 0 lanes) (h.base)))
            (mask_from (λ i. m (bit_and (sub_usz 0 lanes) (h.base) + i) == needle) lanes
              (h.base % lanes) (b.small) below);
      upto = rw (b.rest (h.base)) (omega (arith, below, b.small, lt));
    }

-- On every readable haystack, the search by blocks of 16 or 32 bytes gives what the portable loop
-- gives: it neither takes a byte in front of the haystack, in the block that its base is rounded
-- down to, nor leaves one out between the blocks and the loop at the end.
pub byte_in_buffer_idx_blocks-simple :
    (t : Target) {lanes : ℕ} (v : Vector lanes) (m : Mem) (needle : ℕ) (h : Buffer)
    → IsCtz (t.ctz)
    → IsBlock lanes
    → IsReadable h
    → byte_in_buffer_idx_blocks t v m needle h ≡ byte_in_buffer_idx_simple m needle h
unfolding byte_in_buffer_idx_blocks first_chunk
byte_in_buffer_idx_blocks-simple t {lanes} v m needle h ok b rh =
    elim (Bool-cases (ltb lanes (h.write_cur))) [
      | inl gt ↦
          let s = first_chunk-Scans t v m needle h ok b rh (ground arith) in
          rw gt (
            loop t v ok (b.positive) (b.small) m needle h rh (h.write_cur) 0 (h.base % lanes)
              (first_chunk v m needle h) s (omega (arith, s.upto))
            ∙ expected_simple m needle h)
      | inr f ↦
          let e : h.base + 0 ≡ h.base = omega arith in
          rw f (
            rw e at (tail t v ok (b.positive) (b.small) m needle h rh 0 (h.write_cur) (omega arith))
            ∙ expected_simple m needle h)
    ]
