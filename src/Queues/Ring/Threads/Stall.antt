-- ===== src/Queues/Ring/Threads/Stall.antt =====
-- A state of the ring buffer in which no pop ever gives an item again.
use tiny_base.Base.{
  ℕ, ◌+◌, ◌-◌, ◌*◌, ◌%◌, ◌^◌, ◌≤◌, ◌<◌, ◌≡◌, ◌≢◌, ◌⊎◌, inl, inr, refl, sym, ap, ◌∙◌, arith, Option,
  Option-cases, none, some, bit_and, ne→==, ==_refl,
}
use tiny_base.Atomic.{Heap, store, atomic_compare_exchange_ptr}
use tiny_base.Queues.Ring.{MpmcRingbuf, slot}
use tiny_base.Queues.Ring.Modulo.{bit_and-mask}
use tiny_base.Queues.Ring.Threads.{
  Pc, idle, push_begin, push_exchange, push_advance, pop_begin, pop_load, pop_again, pop_exchange,
  pop_advance, Shared, advance, State,
}
use native.Mathlib.Nat.{mod-eq_of_lt}
use mathlib.Core.Option.{some-injective}
use native.Mathlib.Decide.{ℕ_discrete, dec_le}

-- How many threads have filled a slot and not yet moved the cursor: the one that is named.
abbrev pub pending : Option ℕ → ℕ
pending none = 0
pending (some t) = 1

-- The slots that a push may have seen: the first one, which holds an item, or one from the third
-- up to the cursor's.
abbrev SeenByPush : MpmcRingbuf → (k dst : ℕ) → Type 0
SeenByPush q k dst =
    (dst ≡ q.ring) ⊎ ((i : ℕ) × (dst ≡ q.ring + 8 * i) × (2 ≤ i) × (i ≤ q.write_cur) × (i < 2 ^ k))

-- Where a thread can be: no pop has read an item.
abbrev pub AtMost : (k : ℕ) → MpmcRingbuf → (owner : Option ℕ) → (t : ℕ) → Pc → Type 0
AtMost k q owner t idle = Unit {0}
AtMost k q owner t (push_begin item) = item ≢ 0
AtMost k q owner t (push_exchange dst item) = (item ≢ 0) × SeenByPush q k dst
AtMost k q owner t push_advance = owner ≡ some t
AtMost k q owner t pop_begin = Unit {0}
AtMost k q owner t (pop_load src) = src ≡ q.ring + 8
AtMost k q owner t _ = ⊥

-- The shared part: the reader waits at the second slot, which is empty, the first one holds an item,
-- and so do all from the third one up to the cursor of the writers.
pub record IsStuck (k : ℕ) (owner : Option ℕ) (q : MpmcRingbuf) (h : Heap) : Type 0 where
  pub mask : q.max_cur ≡ 2 ^ k - 1
  pub slots : 2 ≤ 2 ^ k
  pub narrow : k < 64
  pub word : 2 ^ k < 2 ^ 64
  pub read : q.read_cur ≡ 1
  pub first : h q.ring ≢ 0
  pub second : h (q.ring + 8) ≡ 0
  pub behind : 2 ≤ q.write_cur
  pub inside : q.write_cur + pending owner ≤ 2 ^ k
  pub filled : (i : ℕ) → 2 ≤ i → i < q.write_cur + pending owner → h (q.ring + 8 * i) ≢ 0

pub record IsStalled (k : ℕ) (s : State) : Type 0 where
  pub owner : Option ℕ
  pub stuck : IsStuck k owner s.shared.0 s.shared.1
  pub threads : (t : ℕ) → AtMost k s.shared.0 owner t (s.threads t)

module _ (k : ℕ) (owner : Option ℕ) (q : MpmcRingbuf) (h : Heap) (s : IsStuck k owner q h) where
  read_slot : slot q q.read_cur ≡ q.ring + 8
  read_slot =
      let one : 1 % 2 ^ 64 ≡ 1 = omega arith in
      let e : 1 % 2 ^ k ≡ 1 = mod-eq_of_lt s.slots in
      let m = bit_and-mask k 1 (omega (arith, s.narrow)) in
      rw (s.mask, s.read, ap (λ x. bit_and x (2 ^ k - 1)) (sym one) ∙ m ∙ e) refl

  write_slot : SeenByPush q k (slot q q.write_cur)
  write_slot =
      let w : q.write_cur % 2 ^ 64 ≡ q.write_cur = omega (arith, s.inside, s.word) in
      let m : bit_and q.write_cur (2 ^ k - 1) ≡ q.write_cur % 2 ^ k =
        ap (λ x. bit_and x (2 ^ k - 1)) (sym w)
        ∙ bit_and-mask k q.write_cur (omega (arith, s.narrow)) in
      elim (ℕ_discrete q.write_cur (2 ^ k)) [
        | yes e ↦
            let z : q.write_cur % 2 ^ k ≡ 0 = grind (arith, s.slots) in
            inl (rw (s.mask, m, z) (omega arith))
        | no ne ↦
            let z : q.write_cur % 2 ^ k ≡ q.write_cur = mod-eq_of_lt (omega (arith, s.inside)) in
            inr
              (q.write_cur, rw (s.mask, m, z) refl, s.behind, omega arith, omega (arith, s.inside))
      ]

  -- What one step of the thread `t` keeps.
  pub record Kept (t : ℕ) (pc : Pc) (shared : Shared) : Type 0 where
    pub owner' : Option ℕ
    pub stuck : IsStuck k owner' shared.0 shared.1
    pub self : AtMost k shared.0 owner' t pc
    pub others :
        (t' : ℕ) (pc' : Pc) → t' ≢ t → AtMost k q owner t' pc' → AtMost k shared.0 owner' t' pc'

  pub unchanged : (t : ℕ) (pc : Pc) → AtMost k q owner t pc → Kept t pc (q, h)
  unchanged t pc a = record { owner' = owner; stuck = s; self = a; others = λ t' pc' ne b. b }

  -- A slot that a push fills is the one of the cursor, and no other thread is about to move it.
  fill_slot :
      (i : ℕ)
      → 2 ≤ i
      → i ≤ q.write_cur
      → h (q.ring + 8 * i) ≡ 0
      → (owner ≡ none) × (i ≡ q.write_cur)
  fill_slot i lo hi free =
      let at_cursor : q.write_cur ≤ i = elim (dec_le q.write_cur i) [
        | yes le ↦ le
        | no lt ↦ absurd (s.filled i lo (omega arith) free)
      ] in
      elim (Option-cases owner) [
        | inl e ↦ (e, omega arith)
        | inr (t, e) ↦
            let one : pending owner ≡ 1 = ap pending e in absurd (s.filled i lo (omega arith) free)
      ]

  others_after_fill :
      (t' t : ℕ) (pc' : Pc) → owner ≡ none → AtMost k q owner t' pc' → AtMost k q (some t) t' pc'
  others_after_fill t' t idle free a = _
  others_after_fill t' t (push_begin item) free a = a
  others_after_fill t' t (push_exchange dst item) free a = a
  others_after_fill t' t push_advance free a =
      let e : pending (some t') ≡ 0 = ap pending (sym a ∙ free) in absurd (omega arith)
  others_after_fill t' t pop_begin free a = _
  others_after_fill t' t (pop_load src) free a = a
  others_after_fill t' t (pop_again item) free a = a
  others_after_fill t' t (pop_exchange dst item) free a = a
  others_after_fill t' t (pop_advance item) free a = a

  others_after_move :
      (t' t : ℕ) (pc' : Pc)
      → t' ≢ t
      → owner ≡ some t
      → AtMost k q owner t' pc'
      → AtMost k (record q { write_cur = q.write_cur + 1 }) none t' pc'
  others_after_move t' t idle other e a = _
  others_after_move t' t (push_begin item) other e a = a
  others_after_move t' t (push_exchange dst item) other e (ne, inl first) = (ne, inl first)
  others_after_move t' t (push_exchange dst item) other e (ne, inr (i, here, lo, hi, small)) =
      (ne, inr (i, here, lo, omega arith, small))
  others_after_move t' t push_advance other e a = absurd (other (some-injective t' t (sym a ∙ e)))
  others_after_move t' t pop_begin other e a = _
  others_after_move t' t (pop_load src) other e a = a
  others_after_move t' t (pop_again item) other e a = a
  others_after_move t' t (pop_exchange dst item) other e a = a
  others_after_move t' t (pop_advance item) other e a = a

  fill :
      (t item i : ℕ)
      → item ≢ 0
      → owner ≡ none
      → i ≡ q.write_cur
      → i < 2 ^ k
      → Kept t push_advance (q, store h (q.ring + 8 * i) item)
  fill t item i ne free at_cursor small =
      let alone : pending owner ≡ 0 = ap pending free in
      record {
        owner' = some t;
        stuck = record {
          mask = s.mask;
          slots = s.slots;
          narrow = s.narrow;
          word = s.word;
          read = s.read;
          first = rw (ne→== q.ring (q.ring + 8 * i) (λ e. omega (arith, s.behind))) s.first;
          second = rw (ne→== (q.ring + 8) (q.ring + 8 * i) (λ e. omega (arith, s.behind))) s.second;
          behind = s.behind;
          inside = omega arith;
          filled = λ j lo hi. elim (ℕ_discrete j i) [
            | yes e ↦ rw (e, ==_refl (q.ring + 8 * i)) ne
            | no other ↦
                rw (ne→== (q.ring + 8 * j) (q.ring + 8 * i) (λ e. other (omega arith)))
                  (s.filled j lo (omega arith))
          ];
        };
        self = refl;
        others = λ t' pc' other a. others_after_fill t' t pc' free a;
      }

  move :
      (t : ℕ)
      → owner ≡ some t
      → Kept t idle (record q { write_cur = (q.write_cur + 1) % 2 ^ 64 }, h)
  move t e =
      let one : pending owner ≡ 1 = ap pending e in
      let small : (q.write_cur + 1) % 2 ^ 64 ≡ q.write_cur + 1 =
        mod-eq_of_lt (omega (arith, s.inside, s.word)) in
      rw small (record {
        owner' = none;
        stuck = record {
          mask = s.mask;
          slots = s.slots;
          narrow = s.narrow;
          word = s.word;
          read = s.read;
          first = s.first;
          second = s.second;
          behind = omega (arith, s.behind);
          inside = omega (arith, s.inside);
          filled = λ j lo hi. s.filled j lo (omega arith);
        };
        self = _;
        others = λ t' pc' other a. others_after_move t' t pc' other e a;
      })

  pub advance-Kept :
      (t : ℕ) (pc : Pc) → AtMost k q owner t pc → Kept t (advance pc (q, h)).0 (advance pc (q, h)).1
  unfolding advance atomic_compare_exchange_ptr
  advance-Kept t idle a = unchanged t idle _
  advance-Kept t (push_begin item) a = unchanged t (push_exchange _ item) (a, write_slot)
  advance-Kept t (push_exchange dst item) (ne, inl e) =
      rw (e, ne→== (h q.ring) 0 s.first) (unchanged t idle _)
  advance-Kept t (push_exchange dst item) (ne, inr (i, e, lo, hi, small)) =
      elim (ℕ_discrete (h (q.ring + 8 * i)) 0) [
        | yes free ↦ let f = fill_slot i lo hi free in rw (e, free) (fill t item i ne f.0 f.1 small)
        | no taken ↦ rw (e, ne→== (h (q.ring + 8 * i)) 0 taken) (unchanged t idle _)
      ]
  advance-Kept t push_advance a = move t a
  advance-Kept t pop_begin a = unchanged t (pop_load _) read_slot
  advance-Kept t (pop_load src) a = rw (a, s.second) (unchanged t idle _)
  advance-Kept t (pop_again item) a = elim a [ ]
  advance-Kept t (pop_exchange dst item) a = elim a [ ]
  advance-Kept t (pop_advance item) a = elim a [ ]
