-- ===== src/Queues/Ring/Threads/Reach.antt =====
-- A schedule of three threads that stalls a ring buffer of any size.
use tiny_base.Base.{
  ℕ, ◌+◌, ◌-◌, ◌*◌, ◌%◌, ◌^◌, ◌≤◌, ◌<◌, ◌≡◌, ◌≢◌, refl, sym, ap, ◌∙◌, arith, none, bit_and, ne→==,
  ==_refl,
}
use tiny_base.Atomic.{Heap, store}
use tiny_base.Queues.Ring.{MpmcRingbuf}
use tiny_base.Queues.Ring.Modulo.{bit_and-mask}
use tiny_base.Queues.Ring.Threads.{
  Pc, idle, push_begin, pop_begin, pop_advance, Shared, push_advance, State, place, call, run, Step,
  calls_push, calls_pop, runs, Steps, none_left, then_step,
}
use tiny_base.Queues.Ring.Threads.Stall.{IsStalled, AtMost}
use tiny_base.Queues.Ring.Threads.Forever.{IsStalled-stays, stalled_gives_none}
use tiny_base.Queues.Ring.Threads.Alone.{with_parts, push_up_to_advance, pop_taken, advance_at}
use native.Mathlib.Nat.{pow-le-pow_right}
use native.Mathlib.Decide.{ℕ_discrete}

-- All threads are idle, and the ring is as InitMPMCRingBuffer sets it up over zeroed memory.
pub start : (ring k : ℕ) → Heap → State
start ring k h = record {
  shared = (record { ring = ring; max_cur = 2 ^ k - 1; read_cur = 0; write_cur = 0 }, h);
  threads = λ t. idle;
}

-- The first thread fills the first slot and is held up before it moves the cursor.
first_push : State → ℕ → State
first_push s a = run (run (call s 0 (push_begin a)) 0) 0

-- The second thread takes the item, which the cursor of the readers allows.
whole_pop : State → State
whole_pop s = run (run (run (run (run (call s 1 pop_begin) 1) 1) 1) 1) 1

-- The third thread fills the same slot again.
second_push : State → ℕ → State
second_push s b = run (run (call s 2 (push_begin b)) 2) 2

-- Both producers move the cursor.
both_advance : State → State
both_advance s = run (run s 0) 2

stalled : (ring k a b : ℕ) → Heap → State
stalled ring k a b h = both_advance (second_push (whole_pop (first_push (start ring k h) a)) b)

goes_on : {s s' : State} (t : ℕ) → Steps s s' → Steps s (run s' t)
goes_on t before = then_step before (runs t)

module _ (ring k a b : ℕ) (h : Heap) (ne_a : a ≢ 0) (ne_b : b ≢ 0) (narrow : k < 64)
    (free : h ring ≡ 0) where
  first_slot : ring + 8 * bit_and 0 (2 ^ k - 1) ≡ ring
  first_slot =
      let z : 0 % 2 ^ 64 ≡ 0 = omega arith in
      let m : bit_and 0 (2 ^ k - 1) ≡ 0 % 2 ^ k =
        ap (λ x. bit_and x (2 ^ k - 1)) (sym z) ∙ bit_and-mask k 0 (omega arith) in
      rw m (omega arith)

  abbrev final_shared : Shared
  final_shared = (
    record { ring = ring; max_cur = 2 ^ k - 1; read_cur = 1; write_cur = 2 },
    store (store (store h ring a) ring 0) ring b,
  )

  abbrev all_idle : ℕ → Pc
  all_idle t = idle

  abbrev final_threads : ℕ → Pc
  final_threads =
      place (place (place (place (place all_idle 0 push_advance) 1 idle) 2 push_advance) 0 idle) 2
        idle

  stalled_parts : stalled ring k a b h ≡ with_parts final_shared final_threads
  unfolding stalled both_advance second_push whole_pop first_push start
  stalled_parts =
      let q0 : MpmcRingbuf = record {
        ring = ring;
        max_cur = 2 ^ k - 1;
        read_cur = 0;
        write_cur = 0;
      } in
      let q1 : MpmcRingbuf = record q0 { read_cur = 1 } in
      let h1 = store h ring a in
      let h2 = store h1 ring 0 in
      let f1 = place all_idle 0 push_advance in
      let f2 = place f1 1 idle in
      let f3 = place f2 2 push_advance in
      let one : first_push (start ring k h) a ≡ with_parts (q0, h1) f1 =
        push_up_to_advance q0 h all_idle 0 a (rw (first_slot, free) refl) ∙ rw first_slot refl in
      let two : whole_pop (with_parts (q0, h1) f1) ≡ with_parts (q1, h2) f2 =
        pop_taken q0 h1 f1 1 a (rw (first_slot, ==_refl ring) refl) ne_a ∙ rw first_slot refl in
      let three : second_push (with_parts (q1, h2) f2) b ≡ with_parts (q1, store h2 ring b) f3 =
        push_up_to_advance q1 h2 f2 2 b (rw (first_slot, ==_refl ring) refl) ∙ rw first_slot refl in
      let four = advance_at q1 (store h2 ring b) f3 0 refl in
      let five =
        advance_at (record q1 { write_cur = 1 }) (store h2 ring b) (place f3 0 idle) 2 refl in
      ap (λ s. both_advance (second_push (whole_pop s) b)) one
      ∙ ap (λ s. both_advance (second_push s b)) two
      ∙ ap both_advance three
      ∙ ap (λ s. run s 2) four
      ∙ five

  final-AtMost : (t : ℕ) → AtMost k final_shared.0 none t (final_threads t)
  final-AtMost t =
      let rest : final_threads t ≡ idle = elim (ℕ_discrete t 2) [
        | yes e ↦ rw e refl
        | no ne2 ↦ elim (ℕ_discrete t 0) [
          | yes e ↦ rw e refl
          | no ne0 ↦ elim (ℕ_discrete t 1) [
            | yes e ↦ rw e refl
            | no ne1 ↦ rw (ne→== t 2 ne2, ne→== t 0 ne0, ne→== t 1 ne1) refl
          ]
        ]
      ] in
      rw rest _

  stalled-IsStalled :
      2 ≤ 2 ^ k → 2 ^ k < 2 ^ 64 → h (ring + 8) ≡ 0 → IsStalled k (stalled ring k a b h)
  stalled-IsStalled slots word second = rw stalled_parts (record {
    owner = none;
    stuck = record {
      mask = refl;
      slots = slots;
      narrow = narrow;
      word = word;
      read = refl;
      first = rw (==_refl ring) ne_b;
      second = rw (ne→== (ring + 8) ring (λ e. omega arith)) second;
      behind = omega arith;
      inside = omega arith;
      filled = λ i lo hi. omega arith;
    };
    threads = final-AtMost;
  })

  -- The schedule is one of the program's.
  reached : Steps (start ring k h) (stalled ring k a b h)
  unfolding stalled both_advance second_push whole_pop first_push start run call
  reached =
      let first : Step (start ring k h) (call (start ring k h) 0 (push_begin a)) =
        calls_push 0 a refl ne_a in
      let s1 = goes_on 0 (goes_on 0 (then_step none_left first)) in
      let s2 =
        goes_on 1
          (goes_on 1 (goes_on 1 (goes_on 1 (goes_on 1 (then_step s1 (calls_pop 1 refl)))))) in
      let s3 = goes_on 2 (goes_on 2 (then_step s2 (calls_push 2 b refl ne_b))) in
      goes_on 2 (goes_on 0 s3)

-- From a ring buffer of at least two slots over zeroed memory, with all threads idle, two threads
-- that each push an item that is not null and one thread that pops can reach a state in which the
-- first slot holds the second item, and from which on, whatever any number of threads call and in
-- whatever order their steps come, no pop ever has an item to return.
pub ring_buffer_stalls :
    (ring k a b : ℕ) (h : Heap)
    → 2 ≤ 2 ^ k
    → k < 64
    → ((i : ℕ) → i < 2 ^ k → h (ring + 8 * i) ≡ 0)
    → a ≢ 0
    → b ≢ 0
    → (s : State) × Steps (start ring k h) s
      × (s.shared.1 ring ≡ b)
      × ((s' : State) → Steps s s' → (t item : ℕ) → s'.threads t ≢ pop_advance item)
ring_buffer_stalls ring k a b h slots narrow zeroed ne_a ne_b =
    let e0 : ring + 8 * 0 ≡ ring = omega arith in
    let free : h ring ≡ 0 = ap h (sym e0) ∙ zeroed 0 (omega arith) in
    let word : 2 ^ k < 2 ^ 64 =
      omega (arith, pow-le-pow_right {n = 2} (omega arith) {i = k} {j = 63} (omega arith)) in
    let st = stalled-IsStalled ring k a b h ne_a ne_b narrow free slots word (zeroed 1 slots) in
    (
      stalled ring k a b h,
      reached ring k a b h ne_a ne_b narrow free,
      rw (stalled_parts ring k a b h ne_a ne_b narrow free, ==_refl ring) refl,
      λ s' steps. stalled_gives_none k s' (IsStalled-stays k (stalled ring k a b h) s' steps st),
    )
