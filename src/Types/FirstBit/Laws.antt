-- ===== src/Types/FirstBit/Laws.antt =====
-- The lowest bit of a word: where GetFirstBitSet finds it, and what is left when it is cleared.
use Prim.Native.Nat.{min}
use native.Mathlib.Nat.{one-le-pow, pow-le-pow_right, mod-eq_of_lt, pow-suc}
use native.Mathlib.Decide.{dec_lt}
use tiny_base.Base.{
  ℕ, zero, suc, ◌+◌, ◌-◌, ◌*◌, ◌/◌, ◌%◌, ◌^◌, ◌<◌, ◌≤◌, ◌≡◌, refl, ◌∙◌, arith, bit_and,
}
use tiny_base.Base.Bits.{and_halves, and_low_ones}
use tiny_base.Base.Table.{agree_below, agree_below→eq}
use tiny_base.Base.Word.{u32, sub_u32, ◌<<<◌, ◌>>>◌}
use tiny_base.Types.FirstBit.{
  Compiler, msvc, gcc, Target, at, get_first_bit_set, multiply_de_bruijn_bit_position, patterns,
  flip_bit, clear_bit, IsLowestBit, IsCtz,
}

-- `x & ~x` is 0.
and_complement : (w x : ℕ) → x < 2 ^ w → bit_and x (2 ^ w - 1 - x) ≡ 0
and_complement zero x lt = let e : x ≡ 0 = omega arith in rw e refl
and_complement (suc w) x lt =
    let e = pow-suc 2 w in
    let half : (2 ^ suc w - 1 - x) / 2 ≡ 2 ^ w - 1 - x / 2 = omega (arith, e, lt) in
    let odd : min (x % 2) ((2 ^ suc w - 1 - x) % 2) ≡ 0 = omega (arith, e, lt) in
    and_halves x (2 ^ suc w - 1 - x)
    ∙ rw (half, odd, and_complement w (x / 2) (omega (arith, e, lt))) refl

-- `x & -x` is the lowest 1 bit.
and_negative : (i w x : ℕ) → x < 2 ^ w → IsLowestBit x i → bit_and x (2 ^ w - x) ≡ 2 ^ i
and_negative i zero x lt (q, b) = let pos = one-le-pow i 2 (omega arith) in absurd (grind arith)
and_negative zero (suc w) x lt (q, b) =
    let e = pow-suc 2 w in
    let odd : x % 2 ≡ 1 = omega (arith, b) in
    let half : (2 ^ suc w - x) / 2 ≡ 2 ^ w - 1 - x / 2 = omega (arith, e, lt, odd) in
    let odd' : (2 ^ suc w - x) % 2 ≡ 1 = omega (arith, e, lt, odd) in
    and_halves x (2 ^ suc w - x)
    ∙ rw (half, odd, odd', and_complement w (x / 2) (omega (arith, e, lt))) refl
and_negative (suc i) (suc w) x lt (q, b) =
    let e = pow-suc 2 w in
    let b' : x ≡ 2 * ((q * 2 + 1) * 2 ^ i) = b ∙ rw (pow-suc 2 i) (omega arith) in
    let even : x % 2 ≡ 0 = omega (arith, b') in
    let half : (2 ^ suc w - x) / 2 ≡ 2 ^ w - x / 2 = omega (arith, e, lt, even) in
    let even' : (2 ^ suc w - x) % 2 ≡ 0 = omega (arith, e, lt, even) in
    let rest : bit_and (x / 2) (2 ^ w - x / 2) ≡ 2 ^ i =
      and_negative i w (x / 2) (omega (arith, e, lt)) (q, omega (arith, b')) in
    and_halves x (2 ^ suc w - x) ∙ rw (half, even, even', rest, pow-suc 2 i) (omega arith)

pow_below : (i w : ℕ) → i < w → 2 ^ i < 2 ^ w
pow_below i w lt =
    let e = pow-suc 2 i in
    let pos = one-le-pow i 2 (omega arith) in
    let le : 2 ^ suc i ≤ 2 ^ w = pow-le-pow_right (omega arith) lt in omega arith

-- Clearing the lowest 1 bit takes it off.
and_without :
    (i w x : ℕ) → x < 2 ^ w → i < w → IsLowestBit x i → bit_and x (2 ^ w - 1 - 2 ^ i) ≡ x - 2 ^ i
and_without i zero x lt lt' b = absurd (omega arith)
and_without zero (suc w) x lt lt' (q, b) =
    let e = pow-suc 2 w in
    let odd : x % 2 ≡ 1 = omega (arith, b) in
    let half : (2 ^ suc w - 1 - 2 ^ 0) / 2 ≡ 2 ^ w - 1 = omega (arith, e) in
    let even : (2 ^ suc w - 1 - 2 ^ 0) % 2 ≡ 0 = omega (arith, e, one-le-pow w 2 (omega arith)) in
    let kept : bit_and (x / 2) (2 ^ w - 1) ≡ x / 2 =
      and_low_ones w (x / 2) ∙ mod-eq_of_lt (omega (arith, e, lt)) in
    and_halves x (2 ^ suc w - 1 - 2 ^ 0) ∙ rw (half, odd, even, kept) (omega (arith, odd))
and_without (suc i) (suc w) x lt lt' (q, b) =
    let e = pow-suc 2 w in
    let e' = pow-suc 2 i in
    let b' : x ≡ 2 * ((q * 2 + 1) * 2 ^ i) = b ∙ rw (pow-suc 2 i) (omega arith) in
    let le = pow_below i w (omega arith) in
    let half : (2 ^ suc w - 1 - 2 ^ suc i) / 2 ≡ 2 ^ w - 1 - 2 ^ i = omega (arith, e, e', le) in
    let even : x % 2 ≡ 0 = omega (arith, b') in
    let rest : bit_and (x / 2) (2 ^ w - 1 - 2 ^ i) ≡ x / 2 - 2 ^ i =
      and_without i w (x / 2) (omega (arith, e, lt)) (omega arith) (q, omega (arith, b')) in
    and_halves x (2 ^ suc w - 1 - 2 ^ suc i) ∙ rw (half, even, rest) (omega (arith, e'))

table_at :
    (i : ℕ) → i < 32 → at multiply_de_bruijn_bit_position (u32 (2 ^ i * 0x077C_B531) >>> 27) ≡ i
unfolding agree_below
table_at = agree_below→eq _ (λ i. i) 32 refl

pub lowest_bit_below : (x i : ℕ) → x < 2 ^ 32 → IsLowestBit x i → i < 32
lowest_bit_below x i lt (q, b) = elim (dec_lt i 32) [
  | yes l ↦ l
  | no ge ↦
      let le : 2 ^ 32 ≤ 2 ^ i = pow-le-pow_right (omega arith) {i = 32} (omega (arith, ge)) in
      absurd (grind arith)
]

pub de_bruijn-IsCtz :
    (ctz : ℕ → ℕ) → IsCtz (get_first_bit_set (record { compiler = msvc; ctz = ctz }))
unfolding get_first_bit_set
de_bruijn-IsCtz ctz x i lt (q, b) =
    let pos = one-le-pow i 2 (omega arith) in
    let e : sub_u32 0 x ≡ 2 ^ 32 - x = grind arith in
    rw (e, and_negative i 32 x lt (q, b)) (table_at i (lowest_bit_below x i lt (q, b)))

-- For a 32-bit word with a 1 bit, GetFirstBitSet gives the place of the lowest one: by its table
-- with MSVC, and by the builtin with GCC.
pub get_first_bit_set-IsLowestBit :
    (t : Target) (x i : ℕ)
    → IsCtz (t.ctz)
    → x < 2 ^ 32
    → IsLowestBit x i
    → get_first_bit_set t x ≡ i
unfolding get_first_bit_set
get_first_bit_set-IsLowestBit t x i ok lt b = by_compiler (t.compiler)
  where
    by_compiler : (c : Compiler) → get_first_bit_set (record { compiler = c; ctz = t.ctz }) x ≡ i
    by_compiler gcc = ok x i lt b
    by_compiler msvc = de_bruijn-IsCtz (t.ctz) x i lt b

pattern_at : (i : ℕ) → i < 32 → at patterns i ≡ sub_u32 0xFFFF_FFFF (u32 (1 <<< i))
unfolding agree_below
pattern_at = agree_below→eq _ _ 32 refl

-- FlipBit turns a 1 bit to 0 and leaves a 0 bit as it is: on every bit of a 32-bit word, it is
-- ClearBit.
pub flip_bit-clear_bit : (x i : ℕ) → i < 32 → flip_bit x i ≡ clear_bit x i
unfolding flip_bit clear_bit
flip_bit-clear_bit x i lt = rw (pattern_at i lt) refl

pub clear_bit-lowest : (x i : ℕ) → x < 2 ^ 32 → IsLowestBit x i → clear_bit x i ≡ x - 2 ^ i
unfolding clear_bit
clear_bit-lowest x i lt b =
    let below = lowest_bit_below x i lt b in
    let p = pow_below i 32 below in
    let e : sub_u32 0xFFFF_FFFF (u32 (1 <<< i)) ≡ 2 ^ 32 - 1 - 2 ^ i = omega (arith, p) in
    rw e (and_without i 32 x lt below b)
