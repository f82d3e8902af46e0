-- ===== src/Mem.antt =====
-- The address space: a byte at every address, and what memset, memcpy, memcmp and strlen of the C library
-- do to it. A pointer is its address. An access never faults here: which addresses an operation
-- may write is said by the frame parts of the theorems.
pub mod Laws
pub mod Write
pub mod Word
use tiny_base.Base.{
  ℕ, zero, suc, ◌+◌, ◌-◌, ◌*◌, ◌/◌, ◌%◌, ◌^◌, ◌≤◌, ◌<◌, ◌≡◌, ◌⊎◌, Bool, ◌&&◌, List, [], ◌∷◌, ltb,
  leb, ◌==◌, true, if◌then◌else◌,
}
use tiny_base.Base.Word.{u8, ◌>>>◌}

abbrev pub Mem : Type 0
Mem = ℕ → ℕ

-- `[a, a + n)` holds the address `x`.
abbrev pub within : ℕ → ℕ → ℕ → Bool
within a n x = leb a x && ltb x (a + n)

-- `*(u8*)a = v`
abbrev pub store8 : Mem → ℕ → ℕ → Mem
store8 m a v x = if x == a then u8 v else m x

-- Copies `n` bytes; the regions of a defined call do not overlap.
abbrev pub memcpy : Mem → (dst src n : ℕ) → Mem
memcpy m dst src n x = if within dst n x then m (src + (x - dst)) else m x

abbrev pub memset : Mem → (dst value n : ℕ) → Mem
memset m dst value n x = if within dst n x then u8 value else m x

-- `memcmp(a, b, n) == 0`
abbrev pub memcmp_equal : Mem → (a b n : ℕ) → Bool
memcmp_equal m a b zero = true
memcmp_equal m a b (suc n) = (m a == m b) && memcmp_equal m (a + 1) (b + 1) n

-- The `n` bytes from `a` on.
abbrev pub bytes : Mem → ℕ → ℕ → List ℕ
bytes m a zero = []
bytes m a (suc n) = m a ∷ bytes m (a + 1) n

-- `g` differs from `m` at most at the `n` addresses from `a` on.
abbrev pub SameOutside : (a n : ℕ) → Mem → Mem → Type 0
SameOutside a n m g = (x : ℕ) → (x < a) ⊎ (a + n ≤ x) → g x ≡ m x

-- `g` agrees with `m` at the `n` addresses from `a` on.
abbrev pub SameInside : (a n : ℕ) → Mem → Mem → Type 0
SameInside a n m g = (x : ℕ) → a ≤ x → x < a + n → g x ≡ m x

abbrev pub Disjoint : (a n b k : ℕ) → Type 0
Disjoint a n b k = (a + n ≤ b) ⊎ (b + k ≤ a)

abbrev pub IsBytes : Mem → Type 0
IsBytes m = (x : ℕ) → m x < 256
