-- ===== src/Tests/Queues.antt =====
-- The theorems on the queues at concrete inputs.
use tiny_base.Base.{
  ◌≢◌, ℕ, zero, suc, ◌-◌, ◌/◌, ◌^◌, ◌≤◌, ◌<◌, ◌≡◌, refl, arith, List, [], ◌∷◌, ◌==◌, if◌then◌else◌,
  ne→==,
}
use tiny_base.Queues.Fifo.{fifo_pop, Op, push, pop}
use tiny_base.Queues.Ring.Init.{ClzLaw}
use tiny_base.Queues.Ring.Refines.{run_ring, run_fifo, run_ring_lem}
use tiny_base.Queues.FreeList.{init_mpsc_free_list}
use tiny_base.Queues.FreeList.Laws.{PushesFresh, run_list, run_queue, run_list_lem}
use tiny_base.Queues.Ring.{init_mpmc_ring_buffer}
use tiny_base.Queues.Ring.Threads.{pop_advance, State, Steps}
use tiny_base.Queues.Ring.Threads.Reach.{start, ring_buffer_stalls}
use native.Mathlib.Nat.{pow-suc}
use native.Mathlib.Decide.{ℕ_discrete}

-- The number of bits of a number below `2 ^ fuel`, and `__builtin_clzl` by it.
bit_length : (fuel x : ℕ) → ℕ
bit_length zero x = 0
bit_length (suc fuel) x = if x == 0 then 0 else suc (bit_length fuel (x / 2))

clz_by_length : ℕ → ℕ
unfolding bit_length
clz_by_length x = 64 - bit_length 64 x

bit_length-zero : (fuel : ℕ) → bit_length fuel 0 ≡ 0
unfolding bit_length
bit_length-zero zero = refl
bit_length-zero (suc fuel) = refl

bit_length_lem :
    (fuel x : ℕ)
    → 0 < x
    → x < 2 ^ fuel
    → (n : ℕ) × (bit_length fuel x ≡ suc n) × (n < fuel) × (2 ^ n ≤ x) × (x < 2 ^ suc n)
unfolding bit_length
bit_length_lem zero x pos lt = absurd (omega arith)
bit_length_lem (suc fuel) x pos lt = elim (ℕ_discrete (x / 2) 0) [
  | yes e ↦ (
    0,
    rw (ne→== x 0 (omega arith), e, bit_length-zero fuel) refl,
    omega arith,
    omega arith,
    omega arith,
  )
  | no ne ↦
      let (n, e, small, lo, hi) =
        bit_length_lem fuel (x / 2) (omega arith) (omega (arith, pow-suc 2 fuel)) in
      (
        suc n,
        rw (ne→== x 0 (omega arith), e) refl,
        omega arith,
        omega (arith, pow-suc 2 n),
        omega (arith, pow-suc 2 n, pow-suc 2 (suc n)),
      )
]

clz_by_length-ClzLaw : ClzLaw clz_by_length
unfolding clz_by_length
clz_by_length-ClzLaw = record {
  bound = λ x pos word. let (n, e, small, _, _) = bit_length_lem 64 x pos word in omega (arith, e);
  below = λ x pos word.
      let (n, e, small, _, hi) = bit_length_lem 64 x pos word in
      let l : 64 - (64 - suc n) ≡ suc n = omega arith in rw (e, l) hi;
  above = λ x pos word.
      let (n, e, small, lo, _) = bit_length_lem 64 x pos word in
      let l : 63 - (64 - suc n) ≡ n = omega arith in rw (e, l) lo;
}

-- A ring of 20 bytes has room for two items.
abbrev client : List Op
client = push 11 ∷ push 12 ∷ push 13 ∷ pop ∷ push 14 ∷ pop ∷ pop ∷ pop ∷ []

run_ring_lem_example :
    run_ring (λ x. 0) (init_mpmc_ring_buffer clz_by_length 100 20) client
    ≡ run_fifo (2 ^ 1) [] client
run_ring_lem_example =
    run_ring_lem clz_by_length (λ x. 0) 100 20 1 client clz_by_length-ClzLaw (omega arith)
      (omega arith) (omega arith) (omega arith) (λ i li. refl)
      ((λ e. omega arith), ((λ e. omega arith), ((λ e. omega arith), ((λ e. omega arith), _))))

-- The list runs empty, and a node comes back.
abbrev list_client : List Op
list_client = pop ∷ push 11 ∷ push 12 ∷ pop ∷ pop ∷ pop ∷ push 11 ∷ pop ∷ []

list_client-PushesFresh : PushesFresh 100 [] list_client
unfolding fifo_pop
list_client-PushesFresh = (
  (λ e. omega arith),
  ((λ e. omega arith), _),
  (
    (λ e. omega arith),
    ((λ e. omega arith), ((λ e. omega arith), _)),
    ((λ e. omega arith), ((λ e. omega arith), _), _),
  ),
)

run_list_lem_example :
    run_list (λ x. 0) (init_mpsc_free_list 100) list_client ≡ run_queue [] list_client
run_list_lem_example =
    run_list_lem (λ x. 0) 100 list_client (λ e. omega arith) refl list_client-PushesFresh

ring_buffer_stalls_example :
    (s : State) × Steps (start 100 1 (λ x. 0)) s
    × (s.shared.1 100 ≡ 12)
    × ((s' : State) → Steps s s' → (t item : ℕ) → s'.threads t ≢ pop_advance item)
ring_buffer_stalls_example =
    ring_buffer_stalls 100 1 11 12 (λ x. 0) (omega arith) (omega arith) (λ i li. refl)
      (λ e. omega arith) (λ e. omega arith)
