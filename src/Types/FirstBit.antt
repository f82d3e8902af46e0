-- ===== src/Types/FirstBit.antt =====
-- GetFirstBitSet, FlipBit and ClearBit of src/tinybase-types.h, on 32-bit words.
pub mod Laws
use tiny_base.Base.{ℕ, zero, suc, ◌+◌, ◌-◌, ◌*◌, ◌/◌, ◌%◌, ◌^◌, ◌<◌, ◌≡◌, List, [], ◌∷◌, bit_and}
use tiny_base.Base.Word.{u32, sub_u32, ◌<<<◌, ◌>>>◌}

-- TT_MSVC, or TT_GCC.
pub data Compiler : Type 0 where
  msvc : Compiler
  gcc : Compiler

-- A build: its compiler, and what `__builtin_ctz` of GCC computes.
pub record Target : Type 0 where
  pub compiler : Compiler
  pub ctz : ℕ → ℕ

-- `Table[i]`, read inside the table only.
abbrev pub at : List ℕ → ℕ → ℕ
at [] i = 0
at (x ∷ xs) zero = x
at (x ∷ xs) (suc i) = at xs i

abbrev pub multiply_de_bruijn_bit_position : List ℕ
multiply_de_bruijn_bit_position =
    0 ∷ 1 ∷ 28 ∷ 2 ∷ 29 ∷ 14 ∷ 24 ∷ 3 ∷ 30 ∷ 22 ∷ 20 ∷ 15 ∷ 25 ∷ 17 ∷ 4 ∷ 8 ∷ 31 ∷ 27 ∷ 13 ∷ 23 ∷ 21
    ∷ 19 ∷ 16 ∷ 7 ∷ 26 ∷ 12 ∷ 18 ∷ 6 ∷ 11 ∷ 5 ∷ 10 ∷ 9 ∷ []

pub get_first_bit_set : Target → ℕ → ℕ
get_first_bit_set t mask = elim (t.compiler) [
  | gcc ↦ t.ctz mask
  | msvc ↦
      at multiply_de_bruijn_bit_position (u32 (bit_and mask (sub_u32 0 mask) * 0x077C_B531) >>> 27)
]

abbrev pub patterns : List ℕ
patterns =
    0xFFFF_FFFE ∷ 0xFFFF_FFFD ∷ 0xFFFF_FFFB ∷ 0xFFFF_FFF7 ∷ 0xFFFF_FFEF ∷ 0xFFFF_FFDF ∷ 0xFFFF_FFBF
    ∷ 0xFFFF_FF7F ∷ 0xFFFF_FEFF ∷ 0xFFFF_FDFF ∷ 0xFFFF_FBFF ∷ 0xFFFF_F7FF ∷ 0xFFFF_EFFF
    ∷ 0xFFFF_DFFF ∷ 0xFFFF_BFFF ∷ 0xFFFF_7FFF ∷ 0xFFFE_FFFF ∷ 0xFFFD_FFFF ∷ 0xFFFB_FFFF
    ∷ 0xFFF7_FFFF ∷ 0xFFEF_FFFF ∷ 0xFFDF_FFFF ∷ 0xFFBF_FFFF ∷ 0xFF7F_FFFF ∷ 0xFEFF_FFFF
    ∷ 0xFDFF_FFFF ∷ 0xFBFF_FFFF ∷ 0xF7FF_FFFF ∷ 0xEFFF_FFFF ∷ 0xDFFF_FFFF ∷ 0xBFFF_FFFF
    ∷ 0x7FFF_FFFF ∷ []

pub flip_bit : ℕ → ℕ → ℕ
flip_bit number bit_idx = bit_and number (at patterns bit_idx)

-- `~(1UL << Bit)` keeps 32 bits where it meets the u32.
pub clear_bit : ℕ → ℕ → ℕ
clear_bit value bit = bit_and value (sub_u32 0xFFFF_FFFF (u32 (1 <<< bit)))

-- `i` is the place of the lowest 1 bit of `x`.
abbrev pub IsLowestBit : ℕ → ℕ → Type 0
IsLowestBit x i = (q : ℕ) × (x ≡ (q * 2 + 1) * 2 ^ i)

-- What GCC documents of `__builtin_ctz`: the number of 0 bits below the lowest 1 bit.
abbrev pub IsCtz : (ℕ → ℕ) → Type 0
IsCtz ctz = (x i : ℕ) → x < 2 ^ 32 → IsLowestBit x i → ctz x ≡ i
