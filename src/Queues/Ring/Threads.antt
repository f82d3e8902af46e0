-- ===== src/Queues/Ring/Threads.antt =====
-- MPMCRingBufferPush and MPMCRingBufferPop of src/tinybase-queues.c in several threads: every access
-- of the shared structure is a step of its own, and the steps of the threads interleave.
pub mod Alone
pub mod Stall
pub mod Forever
pub mod Reach
use tiny_base.Base.{ℕ, Bool, true, false, ◌≡◌, ◌≢◌, List, [], ◌∷◌, ◌==◌, if◌then◌else◌}
use tiny_base.Atomic.{Heap, atomic_compare_exchange_ptr, atomic_add_fetch_isz}
use tiny_base.Queues.Ring.{MpmcRingbuf, slot}

-- Where a thread is: outside of both functions, or before the access that the name says.
pub data Pc : Type 0 where
  idle : Pc
  push_begin : (item : ℕ) → Pc
  push_exchange : (dst item : ℕ) → Pc
  push_advance : Pc
  pop_begin : Pc
  pop_load : (src : ℕ) → Pc
  pop_again : (item : ℕ) → Pc
  pop_exchange : (dst item : ℕ) → Pc
  pop_advance : (item : ℕ) → Pc

-- What the threads share.
abbrev pub Shared : Type 0
Shared = MpmcRingbuf × Heap

-- One step of a thread. The function returns where the next place is `idle`.
pub advance : Pc → Shared → Pc × Shared
advance idle s = (idle, s)
advance (push_begin item) (q, h) = (push_exchange (slot q q.write_cur) item, (q, h))
advance (push_exchange dst item) (q, h) =
    let (done, h') = atomic_compare_exchange_ptr h dst 0 item in
    if done then (push_advance, (q, h')) else (idle, (q, h'))
advance push_advance (q, h) =
    (idle, (record q { write_cur = atomic_add_fetch_isz q.write_cur 1 }, h))
advance pop_begin (q, h) = (pop_load (slot q q.read_cur), (q, h))
advance (pop_load src) (q, h) = if h src == 0 then (idle, (q, h)) else (pop_again (h src), (q, h))
advance (pop_again item) (q, h) = (pop_exchange (slot q q.read_cur) item, (q, h))
advance (pop_exchange dst item) (q, h) =
    let (done, h') = atomic_compare_exchange_ptr h dst item 0 in
    if done then (pop_advance item, (q, h')) else (idle, (q, h'))
advance (pop_advance item) (q, h) =
    (idle, (record q { read_cur = atomic_add_fetch_isz q.read_cur 1 }, h))

pub record State : Type 0 where
  pub shared : Shared
  pub threads : ℕ → Pc

-- Thread `t` is at `pc`, and the others are where they were.
abbrev pub place : (ℕ → Pc) → (t : ℕ) → Pc → ℕ → Pc
place threads t pc x = if x == t then pc else threads x

pub call : State → (t : ℕ) → Pc → State
call s t pc = record s { threads = place s.threads t pc }

pub run : State → (t : ℕ) → State
run s t =
    let (pc, shared) = advance (s.threads t) s.shared in
    record { shared = shared; threads = place s.threads t pc }

-- One step of the program: an idle thread calls a function, with an item that is not null, or a
-- thread goes on.
pub data Step (s : State) : State → Type 0 where
  calls_push : (t item : ℕ) → s.threads t ≡ idle → item ≢ 0 → Step s (call s t (push_begin item))
  calls_pop : (t : ℕ) → s.threads t ≡ idle → Step s (call s t pop_begin)
  runs : (t : ℕ) → Step s (run s t)

pub data Steps (s : State) : State → Type 0 where
  none_left : Steps s s
  then_step : {s' s'' : State} → Steps s s' → Step s' s'' → Steps s s''
