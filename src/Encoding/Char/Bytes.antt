-- ===== src/Encoding/Char/Bytes.antt =====
-- What is read where memory holds given bytes.
use tiny_base.Base.{ℕ, suc, ◌++◌, ◌+◌, ◌*◌, ◌^◌, ◌<◌, ◌≡◌, ◌∙◌, refl, arith, List, [], ◌∷◌, length}
use tiny_base.Base.Bits.{bit_or-field, bit_or-disjoint}
use tiny_base.Mem.{Mem, bytes, SameInside}
use tiny_base.Encoding.Char.{read_bytes}

-- A region that holds a known list, byte by byte.
abbrev pub Holds : Mem → ℕ → List ℕ → Type 0
Holds m p [] = Unit {0}
Holds m p (x ∷ xs) = (m p ≡ x) × Holds m (p + 1) xs

pub Holds-bytes : (m : Mem) (p : ℕ) (xs : List ℕ) → bytes m p (length xs) ≡ xs → Holds m p xs
Holds-bytes m p [] e = tt
Holds-bytes m p (x ∷ xs) e = (cc, Holds-bytes m (p + 1) xs (cc))

pub bytes-Holds : (m : Mem) (p : ℕ) (xs : List ℕ) → Holds m p xs → bytes m p (length xs) ≡ xs
bytes-Holds m p [] h = refl
bytes-Holds m p (x ∷ xs) h = rw (h.0, bytes-Holds m (p + 1) xs h.1)

module _ (m : Mem) (p a b : ℕ) where
  pub read_two : Holds m p (a ∷ b ∷ []) → a < 256 → read_bytes m p 2 ≡ a + b * 2 ^ 8
  unfolding read_bytes
  read_two h ha = rw (h.0, h.1.0) (bit_or-field 8 b a ha ∙ omega arith)

  pub read_three :
      (c : ℕ)
      → Holds m p (a ∷ b ∷ c ∷ [])
      → a < 256
      → b < 256
      → read_bytes m p 3 ≡ a + b * 2 ^ 8 + c * 2 ^ 16
  unfolding read_bytes
  read_three c h ha hb =
      let third : p + 2 ≡ p + 1 + 1 = omega arith in
      rw (third, h.0, h.1.0, h.1.1.0, bit_or-field 16 c (b * 2 ^ 8) (omega arith))
        (bit_or-disjoint 8 (c * 2 ^ 16 + b * 2 ^ 8) a (omega arith) ha ∙ omega arith)

  pub read_four :
      (c d : ℕ)
      → Holds m p (a ∷ b ∷ c ∷ d ∷ [])
      → a < 256
      → b < 256
      → c < 256
      → read_bytes m p 4 ≡ a + b * 2 ^ 8 + c * 2 ^ 16 + d * 2 ^ 24
  unfolding read_bytes
  read_four c d h ha hb hc =
      let third : p + 2 ≡ p + 1 + 1 = omega arith in
      let fourth : p + 3 ≡ p + 1 + 1 + 1 = omega arith in
      rw
        (
          third,
          fourth,
          h.0,
          h.1.0,
          h.1.1.0,
          h.1.1.1.0,
          bit_or-field 24 d (c * 2 ^ 16) (omega arith),
          bit_or-disjoint 16 (d * 2 ^ 24 + c * 2 ^ 16) (b * 2 ^ 8) (omega arith) (omega arith),
        )
        (bit_or-disjoint 8 (d * 2 ^ 24 + c * 2 ^ 16 + b * 2 ^ 8) a (omega arith) ha ∙ omega arith)

pub Holds-append :
    (m : Mem) (p : ℕ) (xs ys : List ℕ)
    → Holds m p (xs ++ ys)
    → Holds m p xs × Holds m (p + length xs) ys
Holds-append m p [] ys h = let e : p + 0 ≡ p = omega arith in (tt, rw e h)
Holds-append m p (x ∷ xs) ys h =
    let (front, back) = Holds-append m (p + 1) xs ys h.1 in
    let e : p + suc (length xs) ≡ p + 1 + length xs = omega arith in ((h.0, front), rw e back)

pub Holds-join :
    (m : Mem) (p : ℕ) (xs ys : List ℕ)
    → Holds m p xs
    → Holds m (p + length xs) ys
    → Holds m p (xs ++ ys)
Holds-join m p [] ys h k = let e : p + 0 ≡ p = omega arith in rw e at k
Holds-join m p (x ∷ xs) ys h k =
    let e : p + suc (length xs) ≡ p + 1 + length xs = omega arith in
    (h.0, Holds-join m (p + 1) xs ys h.1 (rw e at k))

pub Holds-same :
    (m g : Mem) (p : ℕ) (xs : List ℕ) → SameInside p (length xs) m g → Holds m p xs → Holds g p xs
Holds-same m g p [] s h = tt
Holds-same m g p (x ∷ xs) s h = (
  s p (omega arith) (omega arith) ∙ h.0,
  Holds-same m g (p + 1) xs (λ y a b. s y (omega arith) (omega arith)) h.1,
)
