-- ===== src/Atomic/Words/Laws.antt =====
-- What AtomicAddFetch16 does to the word behind its own.
use tiny_base.Base.{
  ℕ, ◌+◌, ◌*◌, ◌/◌, ◌%◌, ◌^◌, ◌<◌, ◌≡◌, refl, ◌∙◌, ltb, if◌then◌else◌, arith, inl, inr, Bool-cases,
}
use tiny_base.Base.Word.{u16}
use tiny_base.Mem.{Mem, IsBytes}
use tiny_base.Mem.Word.{
  load_bytes, store_bytes, load-store, load_bytes-outside, load_bytes-append, load_bytes-below,
  store_bytes-IsBytes,
}
use tiny_base.Atomic.Words.{long_of_short, atomic_add_fetch16}
use tiny_base.Types.FirstBit.{Compiler, msvc, gcc}

-- The extension of the sign, as a number added to the upper half.
long_of_short_lem : (v : ℕ) → long_of_short v ≡ v + 2 ^ 16 * (if ltb v (2 ^ 15) then 0 else 0xFFFF)
long_of_short_lem v = elim (Bool-cases (ltb v (2 ^ 15))) [
  | inl e ↦ rw e (omega arith)
  | inr f ↦ rw f (omega arith)
]

-- AtomicAddFetch16 returns the sum of the two words of 16 bits, and leaves it in place of the
-- first. With GCC the word behind it stays as it was. With MSVC it is added to as well: 1 where
-- the sum of the bits carries, and 0xFFFF where the operand is negative, modulo 2^16.
pub atomic_add_fetch16-neighbour :
    (c : Compiler) (m : Mem) (dst value : ℕ)
    → IsBytes m
    → value < 2 ^ 16
    → let (result, m') = atomic_add_fetch16 c m dst value in
      let sum = load_bytes m dst 2 + value in
      let sign : ℕ = if ltb value (2 ^ 15) then 0 else 0xFFFF in
      (result ≡ u16 sum)
      × (load_bytes m' dst 2 ≡ u16 sum)
      × (load_bytes m' (dst + 2) 2 ≡ (elim c [
        | gcc ↦ load_bytes m (dst + 2) 2
        | msvc ↦ u16 (load_bytes m (dst + 2) 2 + sum / 2 ^ 16 + sign)
      ]))
unfolding atomic_add_fetch16
atomic_add_fetch16-neighbour gcc m dst value all lt =
    let sum = load_bytes m dst 2 + value in
    let stored = load-store m dst (sum % 256 ^ 2) 2 in
    (
      refl,
      stored ∙ omega arith,
      load_bytes-outside m dst (sum % 256 ^ 2) 2 (dst + 2) 2 (inl (omega arith)),
    )
atomic_add_fetch16-neighbour msvc m dst value all lt =
    let sum = (load_bytes m dst 4 + long_of_short value) % 256 ^ 4 in
    let m' = store_bytes m dst sum 4 in
    let all' = store_bytes-IsBytes m dst sum 4 all in
    let before = load_bytes-append m dst 2 2 in
    let after = load_bytes-append m' dst 2 2 in
    let stored = load-store m dst sum 4 in
    let lo = load_bytes-below m dst 2 all in
    let hi = load_bytes-below m (dst + 2) 2 all in
    let lo' = load_bytes-below m' dst 2 all' in
    let hi' = load_bytes-below m' (dst + 2) 2 all' in
    let long = long_of_short_lem value in (omega arith, omega arith, omega arith)
