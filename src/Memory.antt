-- ===== src/Memory.antt =====
-- src/tinybase-memory.h: the buffer structure, its well-formedness, and the flags of a query.
pub mod Compare
pub mod Search
pub mod Edit
pub mod Simd
use Prim.Native.Nat.{bit_and}
use tiny_base.Base.{
  ℕ, ◌+◌, ◌-◌, ◌^◌, ◌≤◌, ◌<◌, Bool, true, false, not, Option, none, some, List, ◌==◌,
}
use tiny_base.Mem.{Mem, bytes}

pub record Buffer : Type 0 where
  pub base : ℕ
  pub write_cur : ℕ
  pub size : ℕ

-- `Buffer(Ptr, WriteCur, Size)`
abbrev pub buffer : ℕ → ℕ → ℕ → Buffer
buffer ptr write_cur size = record { base = ptr; write_cur = write_cur; size = size }

-- The bytes written so far, the abstract value of a buffer.
abbrev pub contents : Mem → Buffer → List ℕ
contents m b = bytes m b.base b.write_cur

-- The written part lies in the address space. A read-only buffer has size 0.
abbrev pub IsReadable : Buffer → Type 0
IsReadable b = b.base + b.write_cur < 2 ^ 64

-- A buffer that may be written: its cursor is inside it, and it lies in the address space.
pub record IsWritable (b : Buffer) : Type 0 where
  pub cursor : b.write_cur ≤ b.size
  pub region : b.base + b.size < 2 ^ 64

-- INVALID_IDX is USZ_MAX.
abbrev pub invalid_idx : ℕ
invalid_idx = 0xFFFF_FFFF_FFFF_FFFF

abbrev pub return_bool : ℕ
return_bool = 0x1

abbrev pub return_idx_find : ℕ
return_idx_find = 0x2

abbrev pub return_idx_after : ℕ
return_idx_after = 0x4

abbrev pub return_idx_diff : ℕ
return_idx_diff = 0x8

abbrev pub return_ptr_find : ℕ
return_ptr_find = 0x10

abbrev pub return_ptr_after : ℕ
return_ptr_after = 0x20

abbrev pub return_ptr_diff : ℕ
return_ptr_diff = 0x40

abbrev pub search_reverse : ℕ
search_reverse = 0x80

-- `Flags & Flag`, as a condition
abbrev pub has_flag : ℕ → ℕ → Bool
has_flag flags flag = not (bit_and flags flag == 0)

-- A C `bool` as a number
abbrev pub of_bool : Bool → ℕ
of_bool true = 1
of_bool false = 0

abbrev pub idx_or_invalid : Option ℕ → ℕ
idx_or_invalid none = invalid_idx
idx_or_invalid (some i) = i
