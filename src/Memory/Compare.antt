-- ===== src/Memory/Compare.antt =====
-- The comparison part of src/tinybase-memory.c.
pub mod Laws
use tiny_base.Base.{ℕ, ◌+◌, ◌-◌, Bool, true, false, not, ◌&&◌, none, some, ◌==◌, if◌then◌else◌}
use tiny_base.Base.Loop.{search_up}
use tiny_base.Base.Word.{sub_usz}
use tiny_base.Mem.{Mem}
use tiny_base.Memory.{Buffer, has_flag, return_bool, return_idx_diff, of_bool}

-- The result is a pointer into the first region, as a number.
pub compare_ptr_simple : Mem → (a b amount : ℕ) → ℕ
compare_ptr_simple m a b amount = elim (search_up (λ i. not (m (a + i) == m (b + i))) amount 0) [
  | some i ↦ a + i
  | none ↦ a + amount
]

pub compare_idx : Mem → Buffer → Buffer → ℕ → ℕ
compare_idx m a b amount = sub_usz (compare_ptr_simple m a.base b.base amount) a.base

pub compare_bool : Mem → Buffer → Buffer → ℕ → Bool
compare_bool m a b amount = compare_idx m a b amount == amount

pub compare_buffers : Mem → Buffer → Buffer → (amount flag : ℕ) → ℕ
compare_buffers m a b amount flag =
    if has_flag flag return_bool
    then of_bool (compare_bool m a b amount)
    else if has_flag flag return_idx_diff
    then compare_idx m a b amount
    else compare_ptr_simple m a.base b.base amount

pub equal_buffers : Mem → Buffer → Buffer → Bool
equal_buffers m a b =
    if a.write_cur == b.write_cur
    then if a.write_cur == 0
      then true
      else if (m a.base == m b.base)
          && (m (a.base + (a.write_cur - 1)) == m (b.base + (b.write_cur - 1)))
          && (a.write_cur == compare_idx m a b a.write_cur)
      then true
      else false
    else false
