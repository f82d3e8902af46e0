-- ===== src/Queues/Ring/Refines.antt =====
-- The ring buffer gives a client the results of the bounded queue.
use tiny_base.Base.{
  ℕ, suc, ◌+◌, ◌-◌, ◌*◌, ◌%◌, ◌^◌, ◌≤◌, ◌<◌, ◌≡◌, ◌≢◌, refl, ap, arith, List, [], ◌∷◌, ◌++◌, length,
  lt→ltb, le→ltb,
}
use tiny_base.Memory.{of_bool}
use tiny_base.Atomic.{Heap}
use tiny_base.Queues.Fifo.{Op, push, pop, fifo_push, fifo_pop, AllPushed}
use tiny_base.Queues.Ring.{MpmcRingbuf, mpmc_ring_buffer_push, mpmc_ring_buffer_pop}
use native.Mathlib.Nat.{one-le-pow}
use native.Mathlib.Decide.{dec_lt}
use tiny_base.Queues.Ring.Laws.{
  IsFifo, push-room, push-room-IsFifo, push-full, pop-some, pop-some-IsFifo, pop-none,
}
use tiny_base.Queues.Ring.{init_mpmc_ring_buffer}
use tiny_base.Queues.Ring.Init.{ClzLaw, pow_narrow, init_mpmc_ring_buffer_lem}

-- The results of a client's operations in order, a `bool` as a number: of the ring, and of the
-- abstract queue with room for `cap` items.
pub run_ring : Heap → MpmcRingbuf → List Op → List ℕ
run_ring h q [] = []
run_ring h q (push item ∷ ops) =
    let (done, q', h') = mpmc_ring_buffer_push h q item in of_bool done ∷ run_ring h' q' ops
run_ring h q (pop ∷ ops) =
    let (item, q', h') = mpmc_ring_buffer_pop h q in item ∷ run_ring h' q' ops

pub run_fifo : (cap : ℕ) → List ℕ → List Op → List ℕ
run_fifo cap xs [] = []
run_fifo cap xs (push item ∷ ops) =
    let (done, xs') = fifo_push cap xs item in of_bool done ∷ run_fifo cap xs' ops
run_fifo cap xs (pop ∷ ops) = let (item, xs') = fifo_pop xs in item ∷ run_fifo cap xs' ops

-- Whatever a client does with items that are not null, the ring gives the results of the queue
-- with as many places as the ring has slots.
run_ring-IsFifo :
    (k : ℕ) (ops : List Op) (h : Heap) (q : MpmcRingbuf) (r : ℕ) (xs : List ℕ)
    → IsFifo k h q r xs
    → AllPushed (λ item. item ≢ 0) ops
    → run_ring h q ops ≡ run_fifo (2 ^ k) xs ops
unfolding run_ring run_fifo fifo_push fifo_pop
run_ring-IsFifo k [] h q r xs f a = refl
run_ring-IsFifo k (push item ∷ ops) h q r xs f a = elim (dec_lt (length xs) (2 ^ k)) [
  | yes lt ↦
      let later =
        run_ring-IsFifo k ops _ _ r (xs ++ (item ∷ [])) (push-room-IsFifo k h q r xs f item a.0 lt)
          a.1 in
      rw (push-room k h q r xs f item lt, lt→ltb (length xs) (2 ^ k) lt) (ap (λ t. 1 ∷ t) later)
  | no ge ↦
      let later = run_ring-IsFifo k ops h q r xs f a.1 in
      rw (push-full k h q r xs f item (omega arith), le→ltb (length xs) (2 ^ k) (omega arith))
        (ap (λ t. 0 ∷ t) later)
]
run_ring-IsFifo k (pop ∷ ops) h q r [] f a =
    rw (pop-none k h q r f) (ap (λ t. 0 ∷ t) (run_ring-IsFifo k ops h q r [] f a))
run_ring-IsFifo k (pop ∷ ops) h q r (x ∷ xs) f a =
    rw (pop-some k h q r x xs f)
      (ap (λ t. x ∷ t) (run_ring-IsFifo k ops _ _ (r + 1) xs (pop-some-IsFifo k h q r x xs f) a))

-- A ring that InitMPMCRingBuffer sets up over zeroed memory at an address that is not null, with a
-- size of at least one pointer and below 2 GiB, gives a client that pushes no null and uses it from
-- one thread the results of a first-in-first-out queue that refuses a push when it is full. It has
-- room for the largest power of two of pointers that the size has room for.
pub run_ring_lem :
    (clz : ℕ → ℕ) (h : Heap) (ring ring_size k : ℕ) (ops : List Op)
    → ClzLaw clz
    → ring ≢ 0
    → 8 * 2 ^ k ≤ ring_size
    → ring_size < 8 * 2 ^ suc k
    → ring_size < 2 ^ 31
    → ((i : ℕ) → i < 2 ^ k → h (ring + 8 * i) ≡ 0)
    → AllPushed (λ item. item ≢ 0) ops
    → run_ring h (init_mpmc_ring_buffer clz ring ring_size) ops ≡ run_fifo (2 ^ k) [] ops
run_ring_lem clz h ring ring_size k ops law ne lo hi small zeroed a =
    let e = init_mpmc_ring_buffer_lem clz ring ring_size k law ne lo hi small in
    let pos = one-le-pow k 2 (omega arith) in
    let narrow = pow_narrow k 31 (omega arith) in
    rw e (
      run_ring-IsFifo k ops h
        (record { ring = ring; max_cur = 2 ^ k - 1; read_cur = 0; write_cur = 0 }) 0 []
        (record {
          mask = refl;
          small = omega arith;
          read = refl;
          write = refl;
          bound = omega arith;
          cells = λ i li. zeroed ((0 + i) % 2 ^ k) (omega arith);
          non_null = _;
        })
        a)
