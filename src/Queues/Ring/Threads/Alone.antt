-- ===== src/Queues/Ring/Threads/Alone.antt =====
-- A push and a pop of a thread that is not disturbed.
use tiny_base.Base.{ℕ, ◌≡◌, ◌≢◌, refl, ap, ◌∙◌, ne→==, ==_refl}
use tiny_base.Atomic.{Heap, store, atomic_compare_exchange_ptr, atomic_add_fetch_isz}
use tiny_base.Queues.Ring.{MpmcRingbuf, slot}
use tiny_base.Queues.Ring.Threads.{
  Pc, idle, push_begin, push_exchange, push_advance, pop_begin, pop_load, pop_again, pop_exchange,
  pop_advance, Shared, advance, State, place, call, run,
}
use native.Mathlib.Decide.{ℕ_discrete}

-- The state with all its parts written out.
abbrev pub with_parts : Shared → (ℕ → Pc) → State
with_parts shared threads = record { shared = shared; threads = threads }

place_twice :
    (f : ℕ → Pc) (t : ℕ) (pc pc' : Pc) (x : ℕ) → place (place f t pc) t pc' x ≡ place f t pc' x
place_twice f t pc pc' x = elim (ℕ_discrete x t) [
  | yes e ↦ rw (e, ==_refl t) refl
  | no ne ↦ rw (ne→== x t ne) refl
]

run_placed :
    (sh : Shared) (f : ℕ → Pc) (t : ℕ) (pc : Pc)
    → run (with_parts sh (place f t pc)) t
      ≡ with_parts (advance pc sh).1 (place f t (advance pc sh).0)
unfolding run
run_placed sh f t pc =
    let here : place f t pc t ≡ pc = rw (==_refl t) refl in
    rw here (ap (with_parts (advance pc sh).1) (λ i x. place_twice f t pc (advance pc sh).0 x i))

pub advance_at :
    (q : MpmcRingbuf) (h : Heap) (f : ℕ → Pc) (t : ℕ)
    → f t ≡ push_advance
    → run (with_parts (q, h) f) t
      ≡ with_parts (record q { write_cur = atomic_add_fetch_isz q.write_cur 1 }, h) (place f t idle)
unfolding run advance
advance_at q h f t e = rw e refl

module _ (q : MpmcRingbuf) (h : Heap) (f : ℕ → Pc) (t : ℕ) where
  -- A push that finds its slot empty, up to the step that moves the cursor.
  pub push_up_to_advance :
      (item : ℕ)
      → h (slot q q.write_cur) ≡ 0
      → run (run (call (with_parts (q, h) f) t (push_begin item)) t) t
        ≡ with_parts (q, store h (slot q q.write_cur) item) (place f t push_advance)
  unfolding call advance atomic_compare_exchange_ptr
  push_up_to_advance item free =
      ap (λ s. run s t) (run_placed (q, h) f t (push_begin item))
      ∙ run_placed (q, h) f t (push_exchange (slot q q.write_cur) item)
      ∙ rw free refl

  -- A pop of a slot that holds an item, as a whole.
  pub pop_taken :
      (item : ℕ)
      → h (slot q q.read_cur) ≡ item
      → item ≢ 0
      → run (run (run (run (run (call (with_parts (q, h) f) t pop_begin) t) t) t) t) t
        ≡ with_parts
            (
              record q { read_cur = atomic_add_fetch_isz q.read_cur 1 },
              store h (slot q q.read_cur) 0,
            )
            (place f t idle)
  unfolding call advance atomic_compare_exchange_ptr
  pop_taken item e ne =
      let at = slot q q.read_cur in
      let read : advance (pop_load at) (q, h) ≡ (pop_again item, (q, h)) =
        rw (e, ne→== item 0 ne) refl in
      let take : advance (pop_exchange at item) (q, h) ≡ (pop_advance item, (q, store h at 0)) =
        rw (e, ==_refl item) refl in
      ap (λ s. run (run (run (run s t) t) t) t) (run_placed (q, h) f t pop_begin)
      ∙ ap (λ s. run (run (run s t) t) t) (run_placed (q, h) f t (pop_load at))
      ∙ ap (λ r. run (run (run (with_parts r.1 (place f t r.0)) t) t) t) read
      ∙ ap (λ s. run (run s t) t) (run_placed (q, h) f t (pop_again item))
      ∙ ap (λ s. run s t) (run_placed (q, h) f t (pop_exchange at item))
      ∙ ap (λ r. run (with_parts r.1 (place f t r.0)) t) take
      ∙ run_placed (q, store h at 0) f t (pop_advance item)
