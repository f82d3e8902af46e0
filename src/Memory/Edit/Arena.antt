-- ===== src/Memory/Edit/Arena.antt =====
-- ClearBuffer, and PushIntoArena over any sequence of requests.
use tiny_base.Base.{
  ℕ, ◌+◌, ◌≤◌, ◌<◌, ◌≡◌, ◌≢◌, ◌⊎◌, ◌^◌, refl, false, inl, inr, arith, List, [], ◌∷◌, ◌==◌,
  Bool-cases, if◌then◌else◌,
}
use tiny_base.Mem.{Mem, SameOutside}
use tiny_base.Memory.{Buffer, IsWritable}
use tiny_base.Memory.Edit.{push_into_arena, clear_buffer}

-- An address and the number of bytes from it on.
abbrev pub Region : Type 0
Region = ℕ × ℕ

-- The requests of a client in order; a request that is refused gives no region.
pub push_all : Buffer → List ℕ → List Region
push_all arena [] = []
push_all arena (n ∷ sizes) =
    let (ptr, arena') = push_into_arena arena n in
    let later = push_all arena' sizes in if ptr == 0 then later else (ptr, n) ∷ later

-- Regions inside `[lo, hi)`, each behind the one before: no two of them overlap.
abbrev pub Stacked : (lo hi : ℕ) → List Region → Type 0
Stacked lo hi [] = Unit {0}
Stacked lo hi ((p, n) ∷ rest) = (lo ≤ p) × (p + n ≤ hi) × Stacked (p + n) hi rest

abbrev pub All {ℓ} : {A : Type ℓ} → (A → Type 0) → List A → Type 0
All P [] = Unit {0}
All P (x ∷ xs) = P x × All P xs

-- One request: the region behind the cursor, or null and the arena as it was.
push_into_arena-cases :
    (arena : Buffer) (n : ℕ)
    → IsWritable arena
    → arena.size + n < 2 ^ 64
    → ((arena.write_cur + n ≤ arena.size)
        × (push_into_arena arena n
            ≡ (arena.base + arena.write_cur, record arena { write_cur = arena.write_cur + n })))
      ⊎ ((arena.size < arena.write_cur + n) × (push_into_arena arena n ≡ (0, arena)))
unfolding push_into_arena
push_into_arena-cases arena n w small = ground arith

Stacked-mono : (lo lo' hi : ℕ) (rs : List Region) → lo ≤ lo' → Stacked lo' hi rs → Stacked lo hi rs
Stacked-mono lo lo' hi [] le h = tt
Stacked-mono lo lo' hi ((p, n) ∷ rs) le h = (omega arith, h.1, h.2)

-- Whatever a client requests of a writable arena that does not start at null, with sizes that do
-- not wrap when added to the arena's size, every region it gets lies inside the free part of the
-- arena, and no two of them overlap.
pub push_all-Stacked :
    (arena : Buffer) (sizes : List ℕ)
    → IsWritable arena
    → 0 < arena.base
    → All (λ n. arena.size + n < 2 ^ 64) sizes
    → Stacked (arena.base + arena.write_cur) (arena.base + arena.size) (push_all arena sizes)
unfolding push_all
push_all-Stacked arena [] w pos small = tt
push_all-Stacked arena (n ∷ sizes) w pos small = elim (push_into_arena-cases arena n w small.0) [
  | inl (fits, e) ↦
      let there : (arena.base + arena.write_cur == 0) ≡ false = ground arith in
      let move : arena.base + (arena.write_cur + n) ≡ arena.base + arena.write_cur + n =
        omega arith in
      rw (e, there)
        (
          omega arith,
          omega arith,
          rw (← move) (
              push_all-Stacked (record arena { write_cur = arena.write_cur + n }) sizes
                (omega arith) pos small.1),
        )
  | inr (full, e) ↦ rw e (push_all-Stacked arena sizes w pos small.1)
]

-- A request of a word's size that wraps when added to the cursor is granted: the pointer is not
-- null, and the cursor moves back, so that bytes already handed out are handed out again.
pub push_into_arena_wraps :
    (arena : Buffer) (n : ℕ)
    → IsWritable arena
    → 0 < arena.base
    → n < 2 ^ 64
    → 2 ^ 64 ≤ arena.write_cur + n
    → let (ptr, arena') = push_into_arena arena n in
      (ptr ≢ 0) × (arena'.write_cur < arena.write_cur)
unfolding push_into_arena
push_into_arena_wraps arena n w pos word wraps = ground arith

-- ClearBuffer empties a buffer that has a base: its cursor is 0 and its region holds zeros, with no
-- byte changed outside of it. A buffer whose base is null is left alone, and so is memory.
pub clear_buffer_lem :
    (m : Mem) (buf : Buffer)
    → let (buf', m') = clear_buffer m buf in
      ((buf.base ≢ 0)
        × (buf' ≡ record buf { write_cur = 0 })
        × ((i : ℕ) → i < buf.size → m' (buf.base + i) ≡ 0)
        × SameOutside buf.base buf.size m m')
      ⊎ ((buf.base ≡ 0) × (buf' ≡ buf) × (m' ≡ m))
unfolding clear_buffer
clear_buffer_lem m buf = elim (Bool-cases (buf.base == 0)) [
  | inl t ↦ rw t (inr (ground arith, refl, refl))
  | inr f ↦ rw f (inl (ground arith, refl, (λ i lt. ground arith), (λ x h. ground arith)))
]
