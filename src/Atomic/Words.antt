-- ===== src/Atomic/Words.antt =====
-- The operations of src/tinybase-atomic.c on words of bytes in memory, on x64. Each is one step. A
-- signed operand or result is given by its bits.
pub mod Laws
use tiny_base.Base.{ℕ, ◌+◌, ◌-◌, ◌*◌, ◌%◌, ◌^◌, Bool, true, false, ltb, ◌==◌, if◌then◌else◌}
use tiny_base.Base.Word.{u16}
use tiny_base.Mem.{Mem}
use tiny_base.Mem.Word.{load_bytes, store_bytes}
use tiny_base.Types.FirstBit.{Compiler, msvc, gcc}

-- What the builtins of both compilers do to a word of `n` bytes: `__atomic_exchange_n` and
-- InterlockedExchange give the old value, InterlockedCompareExchange gives the old value and
-- `__atomic_compare_exchange_n` whether it is the expected one, and `__atomic_add_fetch` and
-- InterlockedAdd give the sum.
abbrev pub exchange : (n : ℕ) → Mem → (dst value : ℕ) → ℕ × Mem
exchange n m dst value = (load_bytes m dst n, store_bytes m dst value n)

abbrev pub compare_exchange : (n : ℕ) → Mem → (dst expected value : ℕ) → ℕ × Mem
compare_exchange n m dst expected value =
    (load_bytes m dst n, if load_bytes m dst n == expected then store_bytes m dst value n else m)

abbrev pub add_fetch : (n : ℕ) → Mem → (dst value : ℕ) → ℕ × Mem
add_fetch n m dst value =
    let sum = (load_bytes m dst n + value) % 256 ^ n in (sum, store_bytes m dst sum n)

-- A SHORT given by its bits, as a LONG.
abbrev pub long_of_short : ℕ → ℕ
long_of_short n = if ltb n (2 ^ 15) then n else n + (2 ^ 32 - 2 ^ 16)

-- The same call with either compiler.
unfoldable pub atomic_exchange16 : Compiler → Mem → (dst value : ℕ) → ℕ × Mem
atomic_exchange16 msvc m dst value = exchange 2 m dst value
atomic_exchange16 gcc m dst value = exchange 2 m dst value

unfoldable pub atomic_exchange32 : Compiler → Mem → (dst value : ℕ) → ℕ × Mem
atomic_exchange32 msvc m dst value = exchange 4 m dst value
atomic_exchange32 gcc m dst value = exchange 4 m dst value

unfoldable pub atomic_exchange64 : Compiler → Mem → (dst value : ℕ) → ℕ × Mem
atomic_exchange64 msvc m dst value = exchange 8 m dst value
atomic_exchange64 gcc m dst value = exchange 8 m dst value

unfoldable pub atomic_exchange_isz : Compiler → Mem → (dst value : ℕ) → ℕ × Mem
unfolding atomic_exchange64
atomic_exchange_isz c m dst value = atomic_exchange64 c m dst value

unfoldable pub atomic_exchange_ptr : Compiler → Mem → (dst value : ℕ) → ℕ × Mem
atomic_exchange_ptr msvc m dst value = exchange 8 m dst value
atomic_exchange_ptr gcc m dst value = exchange 8 m dst value

-- With MSVC the old value is dropped, and the result is `true`.
abbrev compare_exchange_result : (n : ℕ) → Compiler → Mem → (dst compare value : ℕ) → Bool × Mem
compare_exchange_result n msvc m dst compare value =
    (true, (compare_exchange n m dst compare value).1)
compare_exchange_result n gcc m dst compare value =
    (load_bytes m dst n == compare, (compare_exchange n m dst compare value).1)

unfoldable pub atomic_compare_exchange16 : Compiler → Mem → (dst compare value : ℕ) → Bool × Mem
atomic_compare_exchange16 = compare_exchange_result 2

unfoldable pub atomic_compare_exchange32 : Compiler → Mem → (dst compare value : ℕ) → Bool × Mem
atomic_compare_exchange32 = compare_exchange_result 4

unfoldable pub atomic_compare_exchange64 : Compiler → Mem → (dst compare value : ℕ) → Bool × Mem
atomic_compare_exchange64 = compare_exchange_result 8

unfoldable pub atomic_compare_exchange_isz : Compiler → Mem → (dst compare value : ℕ) → Bool × Mem
unfolding atomic_compare_exchange64
atomic_compare_exchange_isz = atomic_compare_exchange64

unfoldable pub atomic_compare_exchange_word : Compiler → Mem → (dst compare value : ℕ) → Bool × Mem
atomic_compare_exchange_word = compare_exchange_result 8

-- With MSVC the word of 16 bits is added to as one of 32 bits.
unfoldable pub atomic_add_fetch16 : Compiler → Mem → (dst value : ℕ) → ℕ × Mem
atomic_add_fetch16 msvc m dst value =
    let (sum, m') = add_fetch 4 m dst (long_of_short value) in (u16 sum, m')
atomic_add_fetch16 gcc m dst value = add_fetch 2 m dst value

unfoldable pub atomic_add_fetch32 : Compiler → Mem → (dst value : ℕ) → ℕ × Mem
atomic_add_fetch32 msvc m dst value = add_fetch 4 m dst value
atomic_add_fetch32 gcc m dst value = add_fetch 4 m dst value

unfoldable pub atomic_add_fetch64 : Compiler → Mem → (dst value : ℕ) → ℕ × Mem
atomic_add_fetch64 msvc m dst value = add_fetch 8 m dst value
atomic_add_fetch64 gcc m dst value = add_fetch 8 m dst value

unfoldable pub atomic_add_fetch_isz_word : Compiler → Mem → (dst value : ℕ) → ℕ × Mem
unfolding atomic_add_fetch64
atomic_add_fetch_isz_word = atomic_add_fetch64

unfoldable pub atomic_add_fetch_ptr : Compiler → Mem → (dst value : ℕ) → ℕ × Mem
atomic_add_fetch_ptr msvc m dst value = add_fetch 8 m dst value
atomic_add_fetch_ptr gcc m dst value = add_fetch 8 m dst value
