-- ===== src/Queues/Ring.antt =====
-- The MPMC ring buffer of src/tinybase-queues.h and src/tinybase-queues.c.
pub mod Modulo
pub mod Init
pub mod Laws
pub mod Refines
pub mod Threads
use tiny_base.Base.{
  ℕ, ◌+◌, ◌-◌, ◌*◌, ◌/◌, ◌^◌, Bool, true, false, not, bit_and, ltb, ◌==◌, if◌then◌else◌,
}
use tiny_base.Base.Word.{usz, u32, sub_usz, ◌<<<◌}
use tiny_base.Atomic.{Heap, atomic_compare_exchange_ptr, atomic_add_fetch_isz}

pub record MpmcRingbuf : Type 0 where
  pub ring : ℕ
  pub max_cur : ℕ
  pub read_cur : ℕ
  pub write_cur : ℕ

-- A 32-bit signed number, given by its bits, as the 64-bit word that holds it.
abbrev pub sign_extend : ℕ → ℕ
sign_extend n = if ltb n (2 ^ 31) then n else n + (2 ^ 64 - 2 ^ 32)

-- `clz` is `__builtin_clzl`, of which C defines only the values above 0.
pub round_down_to_pow2 : (clz : ℕ → ℕ) → (value : ℕ) → ℕ
round_down_to_pow2 clz value =
    let trailing_zero = 64 - clz (sign_extend value) in
    sign_extend (u32 (1 <<< (trailing_zero - 1)))

-- RoundDownToPow2 takes an `i32`: the size is cut to 32 bits.
pub init_mpmc_ring_buffer : (clz : ℕ → ℕ) → (ring ring_size : ℕ) → MpmcRingbuf
unfolding round_down_to_pow2
init_mpmc_ring_buffer clz ring ring_size =
    if ring == 0 then record { ring = 0; max_cur = 0; read_cur = 0; write_cur = 0 } else record {
      ring = ring;
      max_cur = sub_usz (round_down_to_pow2 clz (u32 ring_size) / 8) 1;
      read_cur = 0;
      write_cur = 0;
    }

-- `&Queue->Ring[Cur & Queue->MaxCur]`
abbrev pub slot : MpmcRingbuf → (cur : ℕ) → ℕ
slot q cur = q.ring + 8 * bit_and cur q.max_cur

pub mpmc_ring_buffer_push : Heap → MpmcRingbuf → (item : ℕ) → Bool × MpmcRingbuf × Heap
mpmc_ring_buffer_push h q item =
    let (done, h') = atomic_compare_exchange_ptr h (slot q q.write_cur) 0 item in
    if done
    then (true, record q { write_cur = atomic_add_fetch_isz q.write_cur 1 }, h')
    else (false, q, h')

pub mpmc_ring_buffer_pop : Heap → MpmcRingbuf → ℕ × MpmcRingbuf × Heap
mpmc_ring_buffer_pop h q =
    let item = h (slot q q.read_cur) in
    let (done, h') = atomic_compare_exchange_ptr h (slot q q.read_cur) item 0 in
    if item == 0
    then (0, q, h)
    else if done
    then (item, record q { read_cur = atomic_add_fetch_isz q.read_cur 1 }, h')
    else (0, q, h')
