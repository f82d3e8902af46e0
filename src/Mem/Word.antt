-- ===== src/Mem/Word.antt =====
-- Words that stand in memory, lowest byte first.
use mathlib.Core.Path.{fun_ext}
use native.Mathlib.Nat.{pow-succ', one-le-pow}
use tiny_base.Base.{
  ℕ, zero, suc, ◌+◌, ◌*◌, ◌/◌, ◌%◌, ◌^◌, ◌<◌, ◌≡◌, refl, ap, ◌∙◌, arith, List, [], ◌∷◌, length, inl,
}
use tiny_base.Base.Bits.{mod_unique}
use tiny_base.Mem.{Mem, store8, IsBytes, Disjoint, SameOutside, SameInside}
use tiny_base.Mem.Laws.{SameOutside-inside}
use tiny_base.Mem.Write.{write_bytes, write_bytes-SameOutside}

unfoldable pub load_bytes : Mem → (a n : ℕ) → ℕ
load_bytes m a zero = 0
load_bytes m a (suc n) = m a + 2 ^ 8 * load_bytes m (a + 1) n

abbrev pub pointer_bytes : ℕ → (n : ℕ) → List ℕ
pointer_bytes p zero = []
pointer_bytes p (suc n) = (p % 2 ^ 8) ∷ pointer_bytes (p / 2 ^ 8) n

-- `n` bytes of the word `p` at address `a`
unfoldable pub store_bytes : Mem → (a p n : ℕ) → Mem
store_bytes m a p n = write_bytes m a (pointer_bytes p n)

store8_same : (m : Mem) (a : ℕ) → m a < 256 → store8 m a (m a) ≡ m
store8_same m a byte = fun_ext λ x. ground arith

-- Storing the bytes that were loaded changes nothing.
pub write-load : (m : Mem) (a n : ℕ) → IsBytes m → store_bytes m a (load_bytes m a n) n ≡ m
unfolding write_bytes load_bytes store_bytes
write-load m a zero all = refl
write-load m a (suc n) all =
    let byte = all a in
    let rest = load_bytes m (a + 1) n in
    let low : (m a + 2 ^ 8 * rest) % 2 ^ 8 ≡ m a = omega (arith, byte) in
    let high : (m a + 2 ^ 8 * rest) / 2 ^ 8 ≡ rest = omega (arith, byte) in
    rw (low, high, store8_same m a byte) (write-load m (a + 1) n all)

pub length-pointer_bytes : (p n : ℕ) → length (pointer_bytes p n) ≡ n
length-pointer_bytes p zero = refl
length-pointer_bytes p (suc n) = ap suc (length-pointer_bytes (p / 2 ^ 8) n)

pub store_bytes-SameOutside : (m : Mem) (a p n : ℕ) → SameOutside a n m (store_bytes m a p n)
unfolding store_bytes
store_bytes-SameOutside m a p n =
    rw (length-pointer_bytes p n) at (write_bytes-SameOutside m a (pointer_bytes p n))

-- Equal bytes make equal words.
pub load_bytes_ext :
    (m g : Mem) (a n : ℕ) → SameInside a n m g → load_bytes g a n ≡ load_bytes m a n
unfolding load_bytes
load_bytes_ext m g a zero h = refl
load_bytes_ext m g a (suc n) h =
    let first = h a (omega arith) (omega arith) in
    let rest = load_bytes_ext m g (a + 1) n (λ x p q. h x (omega arith) (omega arith)) in
    rw (first, rest) refl

pub load_bytes-outside :
    (m : Mem) (a p n b k : ℕ)
    → Disjoint a n b k
    → load_bytes (store_bytes m a p n) b k ≡ load_bytes m b k
load_bytes-outside m a p n b k d =
    load_bytes_ext m (store_bytes m a p n) b k
      (SameOutside-inside a n b k (store_bytes-SameOutside m a p n) d)

-- The word that was stored, cut to the bytes that hold it.
pub load-store : (m : Mem) (a p n : ℕ) → load_bytes (store_bytes m a p n) a n ≡ p % 256 ^ n
unfolding write_bytes load_bytes store_bytes
load-store m a p zero = omega arith
load-store m a p (suc n) =
    let m' = store8 m a (p % 2 ^ 8) in
    let first : write_bytes m' (a + 1) (pointer_bytes (p / 2 ^ 8) n) a ≡ p % 2 ^ 8 =
      store_bytes-SameOutside m' (a + 1) (p / 2 ^ 8) n a (inl (omega arith)) ∙ ground arith in
    let rest = load-store m' (a + 1) (p / 2 ^ 8) n in
    let pos = one-le-pow n 256 (omega arith) in
    let whole : p % (256 * 256 ^ n) ≡ p % 2 ^ 8 + 2 ^ 8 * (p / 2 ^ 8 % 256 ^ n) =
      mod_unique (256 * 256 ^ n) (p / 2 ^ 8 / 256 ^ n) _ p (omega arith) (omega arith) in
    rw (first, rest, pow-succ' 256 n, whole) refl

-- A word of `n` bytes and the one of `k` bytes behind it are a word of `n + k` bytes.
pub load_bytes-append :
    (m : Mem) (a n k : ℕ)
    → load_bytes m a (n + k) ≡ load_bytes m a n + 256 ^ n * load_bytes m (a + n) k
unfolding load_bytes
load_bytes-append m a zero k =
    let e : 0 + k ≡ k = omega arith in let e' : a + 0 ≡ a = omega arith in rw (e, e') (omega arith)
load_bytes-append m a (suc n) k =
    let e : suc n + k ≡ suc (n + k) = omega arith in
    let e' : a + suc n ≡ a + 1 + n = omega arith in
    rw (e, e', load_bytes-append m (a + 1) n k, pow-succ' 256 n) (grind arith)

pub load_bytes-below : (m : Mem) (a n : ℕ) → IsBytes m → load_bytes m a n < 256 ^ n
unfolding load_bytes
load_bytes-below m a zero all = omega arith
load_bytes-below m a (suc n) all =
    let byte = all a in
    let rest = load_bytes-below m (a + 1) n all in rw (pow-succ' 256 n) (omega arith)

pub store_bytes-IsBytes : (m : Mem) (a p n : ℕ) → IsBytes m → IsBytes (store_bytes m a p n)
unfolding store_bytes write_bytes
store_bytes-IsBytes m a p zero all = all
store_bytes-IsBytes m a p (suc n) all =
    store_bytes-IsBytes (store8 m a (p % 2 ^ 8)) (a + 1) (p / 2 ^ 8) n (λ x. ground (arith, all x))
