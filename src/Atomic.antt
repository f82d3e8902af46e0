-- ===== src/Atomic.antt =====
-- The operations of src/tinybase-atomic.c that the queues use, on a 64-bit target with GCC, whose
-- builtins do what their names say: one step each. The operands of the queues are words,
-- so a heap holds a word at every word's address.
pub mod Words
use tiny_base.Base.{ℕ, Bool, true, false, ◌==◌, if◌then◌else◌}
use tiny_base.Base.Word.{add_usz}

abbrev pub Heap : Type 0
Heap = ℕ → ℕ

-- `*Dst = Value`
abbrev pub store : Heap → (dst value : ℕ) → Heap
store h dst value x = if x == dst then value else h x

unfoldable pub atomic_compare_exchange_ptr : Heap → (dst compare value : ℕ) → Bool × Heap
atomic_compare_exchange_ptr h dst compare value =
    if h dst == compare then (true, store h dst value) else (false, h)

-- The new value of a cursor that is added to.
abbrev pub atomic_add_fetch_isz : (dst value : ℕ) → ℕ
atomic_add_fetch_isz dst value = add_usz dst value
