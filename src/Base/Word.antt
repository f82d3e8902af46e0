-- ===== src/Base/Word.antt =====
-- The unsigned machine words of tinybase-types.h on a 64-bit target: `usz` is 64 bits wide and
-- wraps. `-` on ℕ stops at 0, so a difference adds the modulus first.
use Prim.Native.Nat.{ℕ, ◌+◌, ◌-◌, ◌*◌, ◌/◌, ◌%◌, ◌^◌}

abbrev pub u8 : ℕ → ℕ
u8 n = n % 2 ^ 8

abbrev pub u16 : ℕ → ℕ
u16 n = n % 2 ^ 16

abbrev pub u32 : ℕ → ℕ
u32 n = n % 2 ^ 32

abbrev pub usz : ℕ → ℕ
usz n = n % 2 ^ 64

abbrev pub add_usz : ℕ → ℕ → ℕ
add_usz a b = (a + b) % 2 ^ 64

abbrev pub sub_usz : ℕ → ℕ → ℕ
sub_usz a b = (a + 2 ^ 64 - b) % 2 ^ 64

abbrev pub mul_usz : ℕ → ℕ → ℕ
mul_usz a b = a * b % 2 ^ 64

infixl 75 ◌<<<◌ ◌>>>◌
abbrev pub ◌<<<◌ : ℕ → ℕ → ℕ
x <<< k = x * 2 ^ k

abbrev pub ◌>>>◌ : ℕ → ℕ → ℕ
x >>> k = x / 2 ^ k

abbrev pub sub_u32 : ℕ → ℕ → ℕ
sub_u32 a b = (a + 2 ^ 32 - b) % 2 ^ 32
