-- ===== src/Memory/Edit.antt =====
-- The editing part of src/tinybase-memory.c and its arena. A function that changes `*Dst` returns
-- the new structure, and one that writes through a pointer the new memory.
pub mod Spec
pub mod Laws
pub mod Times
pub mod Replace
pub mod Arena
use tiny_base.Base.{
  ℕ, zero, suc, ◌+◌, ◌*◌, Bool, true, false, Option, none, some, leb, ◌==◌, if◌then◌else◌,
}
use tiny_base.Base.Word.{add_usz, sub_usz, mul_usz}
use tiny_base.Mem.{Mem, store8, memcpy, memset}
use tiny_base.Memory.{Buffer, invalid_idx, return_idx_find}
use tiny_base.Memory.Search.{Kernels, byte_in_buffer}

pub clear_buffer : Mem → Buffer → Buffer × Mem
clear_buffer m buf =
    if buf.base == 0 then (buf, m) else (record buf { write_cur = 0 }, memset m buf.base 0 buf.size)

-- Arithmetic on a pointer is defined inside its object only, so it does not wrap.
unfoldable pub advance_buffer : Buffer → ℕ → Buffer
advance_buffer buf num_bytes = record buf {
  base = buf.base + num_bytes;
  write_cur = sub_usz buf.write_cur num_bytes;
}

-- Where the regions overlap, which C leaves undefined, the copy is that of the bytes as they were.
pub copy_data : Mem → (dst dst_size src src_size : ℕ) → Bool × Mem
copy_data m dst dst_size src src_size =
    if leb src_size dst_size then (true, memcpy m dst src src_size) else (false, m)

pub append_data_to_buffer : Mem → (src src_size : ℕ) → Buffer → Bool × Buffer × Mem
append_data_to_buffer m src src_size dst =
    let (done, m') =
      copy_data m (dst.base + dst.write_cur) (sub_usz dst.size dst.write_cur) src src_size in
    if done
    then (true, record dst { write_cur = add_usz dst.write_cur src_size }, m')
    else (false, dst, m')

pub append_buffer_to_buffer : Mem → (src dst : Buffer) → Bool × Buffer × Mem
append_buffer_to_buffer m src dst =
    let (done, m') =
      copy_data m (dst.base + dst.write_cur) (sub_usz dst.size dst.write_cur) src.base
        src.write_cur in
    if done
    then (true, record dst { write_cur = add_usz dst.write_cur src.write_cur }, m')
    else (false, dst, m')

-- `while (Count--)`, which ignores what CopyData returns.
pub append_n_times_loop : ℕ → Mem → (src dst : Buffer) → Buffer × Mem
append_n_times_loop zero m src dst = (dst, m)
append_n_times_loop (suc count) m src dst =
    let (_, m') =
      copy_data m (dst.base + dst.write_cur) (sub_usz dst.size dst.write_cur) src.base
        src.write_cur in
    append_n_times_loop count m' src
      (record dst { write_cur = add_usz dst.write_cur src.write_cur })

pub append_buffer_to_buffer_n_times :
    Mem → (src : Buffer) (count : ℕ) (dst : Buffer) → Bool × Buffer × Mem
append_buffer_to_buffer_n_times m src count dst =
    if leb (mul_usz src.write_cur count) (sub_usz dst.size dst.write_cur)
    then (let (dst', m') = append_n_times_loop count m src dst in (true, dst', m'))
    else (false, dst, m)

module _ (k : Kernels) where
  -- The buffer is passed by value: the result is the memory. `none` means that the fuel ran out.
  pub replace_byte_in_buffer : ℕ → Mem → (old_byte new_byte : ℕ) → Buffer → Option Mem
  replace_byte_in_buffer zero m old_byte new_byte buf = none
  replace_byte_in_buffer (suc fuel) m old_byte new_byte buf =
      let found_idx = byte_in_buffer k m old_byte buf return_idx_find in
      let rest =
        replace_byte_in_buffer fuel (store8 m (buf.base + found_idx) new_byte) old_byte new_byte
          (advance_buffer buf found_idx) in
      if found_idx == invalid_idx then some m else rest

-- A null pointer is 0.
pub push_into_arena : Buffer → (size : ℕ) → ℕ × Buffer
push_into_arena arena size =
    if leb (add_usz arena.write_cur size) arena.size
    then (arena.base + arena.write_cur, record arena { write_cur = add_usz arena.write_cur size })
    else (0, arena)
