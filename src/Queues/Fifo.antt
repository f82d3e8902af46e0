-- ===== src/Queues/Fifo.antt =====
-- The abstract queue that both queues implement for one thread at a time: a list of items, first
-- in, first out. A pop of the empty queue gives null.
use tiny_base.Base.{
  ℕ, zero, suc, ◌≢◌, ◌<◌, ◌≤◌, ◌≡◌, refl, arith, Bool, true, false, List, [], ◌∷◌, ◌++◌, length,
  ltb, if◌then◌else◌,
}

-- What a client asks for.
pub data Op : Type 0 where
  push : (item : ℕ) → Op
  pop : Op

-- A queue with room for `cap` items refuses a push when it is full.
unfoldable pub fifo_push : (cap : ℕ) → List ℕ → ℕ → Bool × List ℕ
fifo_push cap xs item = if ltb (length xs) cap then (true, xs ++ (item ∷ [])) else (false, xs)

unfoldable pub fifo_pop : List ℕ → ℕ × List ℕ
fifo_pop [] = (0, [])
fifo_pop (x ∷ xs) = (x, xs)

-- Every item that is pushed satisfies `P`.
abbrev pub AllPushed : (ℕ → Type 0) → List Op → Type 0
AllPushed P [] = Unit {0}
AllPushed P (push item ∷ ops) = P item × AllPushed P ops
AllPushed P (pop ∷ ops) = AllPushed P ops

-- The item at an index, and null behind the last one.
abbrev pub at : List ℕ → ℕ → ℕ
at [] i = 0
at (x ∷ xs) zero = x
at (x ∷ xs) (suc i) = at xs i

abbrev pub AllNonNull : List ℕ → Type 0
AllNonNull [] = Unit {0}
AllNonNull (x ∷ xs) = (x ≢ 0) × AllNonNull xs

pub at-past : (xs : List ℕ) (i : ℕ) → length xs ≤ i → at xs i ≡ 0
at-past [] i le = refl
at-past (x ∷ xs) zero le = elim le [ ]
at-past (x ∷ xs) (suc i) le = at-past xs i (omega arith)

pub at-append_new : (xs : List ℕ) (x : ℕ) → at (xs ++ (x ∷ [])) (length xs) ≡ x
at-append_new [] x = refl
at-append_new (y ∷ xs) x = at-append_new xs x

pub at-append_old : (xs : List ℕ) (x i : ℕ) → i ≢ length xs → at (xs ++ (x ∷ [])) i ≡ at xs i
at-append_old [] x zero ne = absurd (ne refl)
at-append_old [] x (suc i) ne = refl
at-append_old (y ∷ xs) x zero ne = refl
at-append_old (y ∷ xs) x (suc i) ne = at-append_old xs x i (λ e. ne (omega arith))

pub AllNonNull-append : (xs : List ℕ) (x : ℕ) → AllNonNull xs → x ≢ 0 → AllNonNull (xs ++ (x ∷ []))
AllNonNull-append [] x a ne = (ne, _)
AllNonNull-append (y ∷ xs) x a ne = (a.0, AllNonNull-append xs x a.1 ne)

pub at-first : (xs : List ℕ) → AllNonNull xs → 0 < length xs → at xs 0 ≢ 0
at-first [] a lt = elim lt [ ]
at-first (x ∷ xs) a lt = a.0
