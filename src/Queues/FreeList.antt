-- ===== src/Queues/FreeList.antt =====
-- The MPSC free list of src/tinybase-queues.h and src/tinybase-queues.c. A node is the address of
-- its field `Next`. The heap holds that field for every node, the list's own `Stub` among them, and
-- the record holds the other two fields and the address of the stub.
pub mod Chain
pub mod Laws
use tiny_base.Base.{ℕ, ◌==◌, if◌then◌else◌}
use tiny_base.Atomic.{Heap, store}

pub record MpscFreelist : Type 0 where
  pub head : ℕ
  pub tail : ℕ
  pub stub : ℕ

pub init_mpsc_free_list : (stub : ℕ) → MpscFreelist
init_mpsc_free_list stub = record { head = stub; tail = stub; stub = stub }

-- The exchange of `Queue->Head` gives the old head, whose `Next` is then set.
pub mpsc_free_list_push : Heap → MpscFreelist → (item : ℕ) → MpscFreelist × Heap
mpsc_free_list_push h q item = (record q { head = item }, store (store h item 0) q.head item)

-- The end of a pop, where `tail` is not the stub.
pop_last : Heap → MpscFreelist → (tail next : ℕ) → ℕ × MpscFreelist × Heap
pop_last h q tail next =
    let (q', h') = mpsc_free_list_push h q q.stub in
    if next == 0
    then if tail == q.head
      then if h' tail == 0 then (0, q', h') else (tail, record q' { tail = h' tail }, h')
      else (0, q, h)
    else (tail, record q { tail = next }, h)

pub mpsc_free_list_pop : Heap → MpscFreelist → ℕ × MpscFreelist × Heap
unfolding pop_last
mpsc_free_list_pop h q =
    let next = h q.tail in
    if q.tail == q.stub
    then if next == 0 then (0, q, h) else pop_last h (record q { tail = next }) next (h next)
    else pop_last h q q.tail next
