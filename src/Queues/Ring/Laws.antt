-- ===== src/Queues/Ring/Laws.antt =====
-- The ring buffer implements the bounded queue, for one thread at a time.
use tiny_base.Base.{
  ℕ, suc, ◌+◌, ◌-◌, ◌*◌, ◌%◌, ◌^◌, ◌≤◌, ◌<◌, ◌≡◌, ◌≢◌, refl, sym, ap, ◌∙◌, arith, true, false, List,
  [], ◌∷◌, ◌++◌, length, length-append, ne→==, ==_refl,
}
use tiny_base.Atomic.{Heap, store, atomic_compare_exchange_ptr}
use tiny_base.Queues.Fifo.{
  at, AllNonNull, at-past, at-append_new, at-append_old, AllNonNull-append, at-first,
}
use tiny_base.Queues.Ring.{MpmcRingbuf, slot, mpmc_ring_buffer_push, mpmc_ring_buffer_pop}
use tiny_base.Queues.Ring.Modulo.{bit_and-mask, mod-add-injective}
use native.Mathlib.Nat.{one-le-pow}
use native.Mathlib.Decide.{ℕ_discrete}

-- A ring of `2 ^ k` slots holds the items `xs`, the first of them in the slot of the cursor that
-- has counted `r` pops, and null everywhere else.
pub record IsFifo (k : ℕ) (h : Heap) (q : MpmcRingbuf) (r : ℕ) (xs : List ℕ) : Type 0 where
  pub mask : q.max_cur ≡ 2 ^ k - 1
  pub small : k ≤ 64
  pub read : q.read_cur ≡ r % 2 ^ 64
  pub write : q.write_cur ≡ (r + length xs) % 2 ^ 64
  pub bound : length xs ≤ 2 ^ k
  pub cells : (i : ℕ) → i < 2 ^ k → h (q.ring + 8 * ((r + i) % 2 ^ k)) ≡ at xs i
  pub non_null : AllNonNull xs

module _ (k : ℕ) (h : Heap) (q : MpmcRingbuf) (r : ℕ) (xs : List ℕ) (f : IsFifo k h q r xs) where
  write_slot : slot q q.write_cur ≡ q.ring + 8 * ((r + length xs) % 2 ^ k)
  write_slot = rw (f.mask, f.write, bit_and-mask k (r + length xs) f.small) refl

  read_slot : slot q q.read_cur ≡ q.ring + 8 * (r % 2 ^ k)
  read_slot = rw (f.mask, f.read, bit_and-mask k r f.small) refl

  -- A store into one slot does not show in another one.
  other_slot :
      (v i j : ℕ)
      → i < 2 ^ k
      → j < 2 ^ k
      → i ≢ j
      → store h (q.ring + 8 * ((r + j) % 2 ^ k)) v (q.ring + 8 * ((r + i) % 2 ^ k)) ≡ at xs i
  other_slot v i j li lj ne =
      rw
        (ne→== (q.ring + 8 * ((r + i) % 2 ^ k)) (q.ring + 8 * ((r + j) % 2 ^ k))
          (λ e. ne (mod-add-injective (2 ^ k) r i j li lj (omega arith))))
        (f.cells i li)

  pub push-room :
      (item : ℕ)
      → length xs < 2 ^ k
      → mpmc_ring_buffer_push h q item ≡ (
        true,
        record q { write_cur = (q.write_cur + 1) % 2 ^ 64 },
        store h (q.ring + 8 * ((r + length xs) % 2 ^ k)) item,
      )
  unfolding mpmc_ring_buffer_push atomic_compare_exchange_ptr
  push-room item lt =
      let free = f.cells (length xs) lt ∙ at-past xs (length xs) (omega arith) in
      rw (write_slot, free) refl

  pub push-room-IsFifo :
      (item : ℕ)
      → item ≢ 0
      → length xs < 2 ^ k
      → IsFifo k
          (store h (q.ring + 8 * ((r + length xs) % 2 ^ k)) item)
          (record q { write_cur = (q.write_cur + 1) % 2 ^ 64 })
          r
          (xs ++ (item ∷ []))
  push-room-IsFifo item ne lt = record {
    mask = f.mask;
    small = f.small;
    read = f.read;
    write = rw (length-append xs (item ∷ []), f.write) (omega arith);
    bound = omega (arith, length-append xs (item ∷ []));
    cells = λ i li. elim (ℕ_discrete i (length xs)) [
      | yes e ↦ rw (e, at-append_new xs item, ==_refl (q.ring + 8 * ((r + length xs) % 2 ^ k))) refl
      | no ne' ↦ other_slot item i (length xs) li lt ne' ∙ sym (at-append_old xs item i ne')
    ];
    non_null = AllNonNull-append xs item f.non_null ne;
  }

  pub push-full : (item : ℕ) → 2 ^ k ≤ length xs → mpmc_ring_buffer_push h q item ≡ (false, q, h)
  unfolding mpmc_ring_buffer_push atomic_compare_exchange_ptr
  push-full item le =
      let pos = one-le-pow k 2 (omega arith) in
      let turn : (r + length xs) % 2 ^ k ≡ (r + 0) % 2 ^ k = grind (arith, f.bound) in
      let taken = f.cells 0 (omega arith) in
      let busy = ne→== (at xs 0) 0 (at-first xs f.non_null (omega arith)) in
      rw (write_slot, turn, taken, busy) refl

-- A pop of a queue that holds something empties its slot and moves on.
module _ (k : ℕ) (h : Heap) (q : MpmcRingbuf) (r x : ℕ) (xs : List ℕ)
    (f : IsFifo k h q r (x ∷ xs)) where
  pub pop-some : mpmc_ring_buffer_pop h q ≡ (
    x,
    record q { read_cur = (q.read_cur + 1) % 2 ^ 64 },
    store h (q.ring + 8 * ((r + 0) % 2 ^ k)) 0,
  )
  unfolding mpmc_ring_buffer_pop atomic_compare_exchange_ptr
  pop-some =
      let pos = one-le-pow k 2 (omega arith) in
      let here : slot q q.read_cur ≡ q.ring + 8 * ((r + 0) % 2 ^ k) =
        let e : r + 0 ≡ r = omega arith in rw e (read_slot k h q r (x ∷ xs) f) in
      rw (here, f.cells 0 (omega arith), ne→== x 0 f.non_null.0, ==_refl x) refl

  pub pop-some-IsFifo :
      IsFifo k
        (store h (q.ring + 8 * ((r + 0) % 2 ^ k)) 0)
        (record q { read_cur = (q.read_cur + 1) % 2 ^ 64 })
        (r + 1)
        xs
  pop-some-IsFifo = record {
    mask = f.mask;
    small = f.small;
    read = rw f.read (omega arith);
    write = f.write ∙ ap (λ n. n % 2 ^ 64) (omega arith);
    bound = omega (arith, f.bound);
    cells = λ i li. elim (ℕ_discrete (i + 1) (2 ^ k)) [
      | yes e ↦
          let turn : (r + 1 + i) % 2 ^ k ≡ (r + 0) % 2 ^ k = grind arith in
          rw (turn, ==_refl (q.ring + 8 * ((r + 0) % 2 ^ k)))
            (sym (at-past xs i (omega (arith, f.bound))))
      | no ne ↦
          let e : r + 1 + i ≡ r + suc i = omega arith in
          rw e (other_slot k h q r (x ∷ xs) f 0 (suc i) 0 (omega arith) (omega arith) (omega arith))
    ];
    non_null = f.non_null.1;
  }

pub pop-none :
    (k : ℕ) (h : Heap) (q : MpmcRingbuf) (r : ℕ)
    → IsFifo k h q r []
    → mpmc_ring_buffer_pop h q ≡ (0, q, h)
unfolding mpmc_ring_buffer_pop
pop-none k h q r f =
    let pos = one-le-pow k 2 (omega arith) in
    let here : slot q q.read_cur ≡ q.ring + 8 * ((r + 0) % 2 ^ k) =
      let e : r + 0 ≡ r = omega arith in rw e (read_slot k h q r [] f) in
    rw (here, f.cells 0 (omega arith)) refl
