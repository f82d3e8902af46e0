-- ===== src/Memory/Edit/Laws.antt =====
-- AppendDataToBuffer and AppendBufferToBuffer against the list of bytes that a buffer holds.
use tiny_base.Base.{
  ℕ, ◌+◌, ◌-◌, ◌≡◌, refl, ap, ap₂, ◌∙◌, Bool, inl, inr, arith, List, ◌++◌, length, length-append,
  leb, Bool-cases, leb→le,
}
use mathlib.Core.List.{append_assoc}
use tiny_base.Base.Word.{add_usz, sub_usz}
use tiny_base.Mem.{Mem, memcpy, bytes}
use tiny_base.Mem.Laws.{
  bytes-append, bytes-memcpy, memcpy-SameOutside, bytes-outside, length-bytes, SameOutside-trans,
}
use tiny_base.Memory.{Buffer, contents, IsWritable}
use tiny_base.Memory.Edit.{copy_data, append_data_to_buffer, append_buffer_to_buffer}
use tiny_base.Memory.Edit.Spec.{FreeDisjoint, Appended, Appends}

pub Appended-IsWritable :
    {m : Mem} {dst : Buffer} {added : List ℕ} {r : Bool × Buffer × Mem}
    → IsWritable dst
    → Appended m dst added r
    → IsWritable r.1
Appended-IsWritable w a = omega arith

-- One append after another appends both lists.
pub Appended-trans :
    {m g : Mem} {dst mid : Buffer} (xs ys : List ℕ) {done : Bool} {r : Bool × Buffer × Mem}
    → Appended m dst xs (done, mid, g)
    → Appended g mid ys r
    → Appended m dst (xs ++ ys) r
Appended-trans {m} {g} {dst} {mid} xs ys {done} {r} a b = record {
  fits = omega (arith, len, a.cursor, b.fits, a.same_size);
  success = b.success;
  same_base = b.same_base ∙ a.same_base;
  same_size = b.same_size ∙ a.same_size;
  cursor = omega (arith, len, a.cursor, b.cursor);
  value = b.value ∙ ap (λ t. t ++ ys) a.value ∙ append_assoc (contents m dst) xs ys;
  frame = rw len (
      SameOutside-trans (dst.base + dst.write_cur) (length xs) (length ys) a.frame (
        let e : dst.base + dst.write_cur + length xs ≡ mid.base + mid.write_cur =
          omega (arith, a.cursor, a.same_base) in
        rw e b.frame));
}
  where
    len : length (xs ++ ys) ≡ length xs + length ys
    len = length-append xs ys

-- The value of a buffer after a copy behind its cursor.
pub contents-memcpy :
    (m : Mem) (dst : Buffer) (src n : ℕ)
    → contents
        (memcpy m (dst.base + dst.write_cur) src n)
        (record dst { write_cur = dst.write_cur + n })
      ≡ contents m dst ++ bytes m src n
contents-memcpy m dst src n =
    let start = dst.base + dst.write_cur in
    bytes-append (memcpy m start src n) dst.base dst.write_cur n
    ∙ ap₂ ◌++◌
        (bytes-outside start n dst.base dst.write_cur (memcpy-SameOutside m start src n)
          (inr (omega arith)))
        (bytes-memcpy m start src n)

-- The copy as memcpy makes it where it reads all the bytes before it writes any.
pub append_copy-Appends :
    (m : Mem) (src n : ℕ) (dst : Buffer)
    → IsWritable dst
    → Appends m dst (bytes m src n) (append_data_to_buffer m src n dst)
unfolding append_data_to_buffer copy_data
append_copy-Appends m src n dst w =
    let room : sub_usz dst.size dst.write_cur ≡ dst.size - dst.write_cur = omega arith in
    let len = length-bytes m src n in
    elim (Bool-cases (leb n (sub_usz dst.size dst.write_cur))) [
      | inl t ↦
          let fits = leb→le _ _ t in
          let e : add_usz dst.write_cur n ≡ dst.write_cur + n = omega arith in
          rw (t, e)
            (inl (record {
              fits = omega arith;
              success = refl;
              same_base = refl;
              same_size = refl;
              cursor = omega arith;
              value = contents-memcpy m dst src n;
              frame = rw len (memcpy-SameOutside m (dst.base + dst.write_cur) src n);
            }))
      | inr f ↦ rw f (
          inr (record { full = ground arith; failure = refl; same_buffer = refl; same_mem = refl }))
    ]

-- AppendDataToBuffer on a writable buffer, from `SrcSize` bytes at `Src` that lie apart from its free
-- part, appends these bytes to its contents and returns true if they fit behind its cursor,
-- changing no byte elsewhere; if not, it returns false and changes nothing.
pub append_data_to_buffer-Appends :
    (m : Mem) (src n : ℕ) (dst : Buffer)
    → IsWritable dst
    → FreeDisjoint src n dst
    → Appends m dst (bytes m src n) (append_data_to_buffer m src n dst)
append_data_to_buffer-Appends m src n dst w apart = append_copy-Appends m src n dst w

-- AppendBufferToBuffer appends the contents of the source buffer in the same way.
pub append_buffer_to_buffer-Appends :
    (m : Mem) (src dst : Buffer)
    → IsWritable dst
    → Appends m dst (contents m src) (append_buffer_to_buffer m src dst)
unfolding append_buffer_to_buffer append_data_to_buffer
append_buffer_to_buffer-Appends m src dst w = append_copy-Appends m src.base src.write_cur dst w
