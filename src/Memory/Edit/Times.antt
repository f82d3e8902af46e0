-- ===== src/Memory/Edit/Times.antt =====
-- AppendBufferToBufferNTimes, whose total size is a product of two words.
use tiny_base.Base.{
  ℕ, zero, suc, ◌+◌, ◌*◌, ◌≤◌, ◌<◌, ◌≡◌, ◌^◌, refl, sym, ap, Bool, true, inl, inr, arith, length,
  repeat, leb, length-repeat, Bool-cases, [],
}
use mathlib.Core.List.{append-nil}
use native.Mathlib.Nat.{mul_comm}
use tiny_base.Base.Word.{sub_usz, mul_usz}
use tiny_base.Mem.{Mem, Disjoint}
use tiny_base.Mem.Laws.{bytes-outside, length-bytes}
use tiny_base.Memory.{Buffer, contents, IsWritable}
use tiny_base.Memory.Edit.{
  append_n_times_loop, append_buffer_to_buffer, append_buffer_to_buffer_n_times, copy_data,
}
use tiny_base.Memory.Edit.Spec.{FreeDisjoint, Appended, Appends}
use tiny_base.Memory.Edit.Laws.{
  append_buffer_to_buffer-Appends, Appended-trans, Appended-IsWritable,
}

pub Appended-nil : (m : Mem) (dst : Buffer) → IsWritable dst → Appended m dst [] (true, dst, m)
Appended-nil m dst w = record {
  fits = omega arith;
  success = refl;
  same_base = refl;
  same_size = refl;
  cursor = omega arith;
  value = sym (append-nil _);
  frame = λ x _. refl;
}

append_n_times_loop-suc :
    (count : ℕ) (m : Mem) (src dst : Buffer)
    → dst.write_cur + src.write_cur ≤ dst.size
    → IsWritable dst
    → append_n_times_loop (suc count) m src dst ≡ (
        let (_, dst', m') = append_buffer_to_buffer m src dst in
        append_n_times_loop count m' src dst')
unfolding append_n_times_loop append_buffer_to_buffer copy_data
append_n_times_loop-suc count m src dst fits w =
    let t : leb src.write_cur (sub_usz dst.size dst.write_cur) ≡ true = ground arith in rw t

abbrev succeeded : Buffer × Mem → Bool × Buffer × Mem
succeeded r = (true, r.0, r.1)

module _ (src : Buffer) {m : Mem} {dst : Buffer} {r : Bool × Buffer × Mem}
    (a : Appended m dst (contents m src) r) where
  n : length (contents m src) ≡ src.write_cur
  n = length-bytes m src.base src.write_cur

  -- The copies leave the source as it is, and the free part that is left is still apart from it.
  contents-Appended : FreeDisjoint src.base src.write_cur dst → contents r.2 src ≡ contents m src
  contents-Appended apart =
      bytes-outside (dst.base + dst.write_cur) (length (contents m src)) src.base src.write_cur
        a.frame (flip apart)
    where
      flip :
          FreeDisjoint src.base src.write_cur dst
          → Disjoint (dst.base + dst.write_cur) (length (contents m src)) src.base src.write_cur
      flip (inl l) = inr l
      flip (inr h) = inl (omega (arith, n, a.fits))

  FreeDisjoint-Appended :
      FreeDisjoint src.base src.write_cur dst → FreeDisjoint src.base src.write_cur r.1
  FreeDisjoint-Appended (inl l) = inl (omega (arith, n, a.cursor, a.same_base))
  FreeDisjoint-Appended (inr h) = inr (omega (arith, n, a.cursor, a.same_base, a.same_size, a.fits))

loop-Appended :
    (count : ℕ) (m : Mem) (src dst : Buffer)
    → IsWritable dst
    → dst.write_cur + count * src.write_cur ≤ dst.size
    → FreeDisjoint src.base src.write_cur dst
    → Appended m dst
        (repeat count (contents m src))
        (succeeded (append_n_times_loop count m src dst))
loop-Appended zero m src dst w fits apart = unfold append_n_times_loop in Appended-nil m dst w
loop-Appended (suc count) m src dst w fits apart =
    elim (append_buffer_to_buffer-Appends m src dst w) [
      | inr r ↦ absurd (omega (arith, r.full, length-bytes m src.base src.write_cur))
      | inl a ↦ rw (append_n_times_loop-suc count m src dst (omega arith) w) (
          let (done, dst', m') = append_buffer_to_buffer m src dst in
          let n = length-bytes m src.base src.write_cur in
          let same : contents m' src ≡ contents m src = contents-Appended src a apart in
          Appended-trans (contents m src) (repeat count (contents m src)) a (
            rw (← same) (
              loop-Appended count m' src dst' (Appended-IsWritable w a)
                (omega (arith, n, a.cursor, a.same_size)) (FreeDisjoint-Appended src a apart))))
    ]

-- AppendBufferToBufferNTimes on a writable buffer, from a source apart from its free part: if
-- `Src.WriteCur * Count` does not wrap, it appends `Count` copies of the source's contents where
-- they all fit, and otherwise returns false and changes nothing.
pub append_buffer_to_buffer_n_times-Appends :
    (m : Mem) (src : Buffer) (count : ℕ) (dst : Buffer)
    → IsWritable dst
    → FreeDisjoint src.base src.write_cur dst
    → src.write_cur * count < 2 ^ 64
    → Appends m dst
        (repeat count (contents m src))
        (append_buffer_to_buffer_n_times m src count dst)
unfolding append_buffer_to_buffer_n_times
append_buffer_to_buffer_n_times-Appends m src count dst w apart small =
    elim (Bool-cases (leb (mul_usz src.write_cur count) (sub_usz dst.size dst.write_cur))) [
      | inl t ↦ rw t (inl (loop-Appended count m src dst w (ground (arith, total)) apart))
      | inr f ↦ rw f (
          inr (record {
            full = ground (arith, total);
            failure = refl;
            same_buffer = refl;
            same_mem = refl;
          }))
    ]
  where
    total : length (repeat count (contents m src)) ≡ src.write_cur * count
    total = omega (
      arith,
      length-repeat count (contents m src),
      ap (λ t. count * t) (length-bytes m src.base src.write_cur),
      mul_comm count src.write_cur,
    )
