-- ===== src/Mem/Laws.antt =====
-- What the byte lists of regions become under the memory operations.
use tiny_base.Base.{
  ℕ, zero, suc, ◌+◌, ◌≤◌, ◌<◌, ◌≡◌, refl, ◌∙◌, ap, ap₂, ◌++◌, ◌∷◌, length, arith, ◌⊎◌, inl, inr,
}
use tiny_base.Mem.{store8, Mem, memcpy, bytes, SameOutside, SameInside, Disjoint}

pub length-bytes : (m : Mem) (a n : ℕ) → length (bytes m a n) ≡ n
length-bytes m a zero = refl
length-bytes m a (suc n) = ap suc (length-bytes m (a + 1) n)

pub bytes-append : (m : Mem) (a n k : ℕ) → bytes m a (n + k) ≡ bytes m a n ++ bytes m (a + n) k
bytes-append m a zero k =
    let e : a + 0 ≡ a = omega arith in let e' : 0 + k ≡ k = omega arith in rw (e, e')
bytes-append m a (suc n) k =
    let e : a + suc n ≡ a + 1 + n = omega arith in
    let e' : suc n + k ≡ suc (n + k) = omega arith in
    rw (e, e') (ap (λ t. m a ∷ t) (bytes-append m (a + 1) n k))

-- Regions with the same bytes, index by index, are the same list.
pub bytes_ext :
    (m g : Mem) (a b n : ℕ) → ((i : ℕ) → i < n → g (b + i) ≡ m (a + i)) → bytes g b n ≡ bytes m a n
bytes_ext m g a b zero h = refl
bytes_ext m g a b (suc n) h =
    ap₂ ◌∷◌ (ap g (omega arith) ∙ h 0 (omega arith) ∙ ap m (omega arith)) (
      bytes_ext m g (a + 1) (b + 1) n
        (λ i lt. ap g (omega arith) ∙ h (suc i) (omega arith) ∙ ap m (omega arith)))

pub bytes-same : (m g : Mem) (a n : ℕ) → SameInside a n m g → bytes g a n ≡ bytes m a n
bytes-same m g a n h = bytes_ext m g a a n (λ i lt. h (a + i) (omega arith) (omega arith))

pub memcpy-SameOutside : (m : Mem) (dst src n : ℕ) → SameOutside dst n m (memcpy m dst src n)
memcpy-SameOutside m dst src n x h = ground arith

pub bytes-memcpy : (m : Mem) (dst src n : ℕ) → bytes (memcpy m dst src n) dst n ≡ bytes m src n
bytes-memcpy m dst src n = bytes_ext m (memcpy m dst src n) src dst n at
  where
    at : (i : ℕ) → i < n → memcpy m dst src n (dst + i) ≡ m (src + i)
    at i lt = ground arith

-- A change elsewhere leaves a region's bytes.
pub SameOutside-inside :
    {m g : Mem} (a n b k : ℕ) → SameOutside a n m g → Disjoint a n b k → SameInside b k m g
SameOutside-inside a n b k h d x p q = h x (region d)
  where
    region : Disjoint a n b k → (x < a) ⊎ (a + n ≤ x)
    region (inl l) = inr (omega arith)
    region (inr r) = inl (omega arith)

pub bytes-outside :
    {m g : Mem} (a n b k : ℕ) → SameOutside a n m g → Disjoint a n b k → bytes g b k ≡ bytes m b k
bytes-outside {m} {g} a n b k h d = bytes-same m g b k (SameOutside-inside a n b k h d)

pub bytes_inj :
    (m g : Mem) (a b n : ℕ) → bytes g b n ≡ bytes m a n → (i : ℕ) → i < n → g (b + i) ≡ m (a + i)
bytes_inj m g a b zero e i lt = elim lt [ ]
bytes_inj m g a b (suc n) e zero lt =
    let e' : b + 0 ≡ b = omega arith in let e'' : a + 0 ≡ a = omega arith in rw (e', e'') (cc)
bytes_inj m g a b (suc n) e (suc i) lt =
    let e' : b + suc i ≡ b + 1 + i = omega arith in
    let e'' : a + suc i ≡ a + 1 + i = omega arith in
    rw (e', e'') (bytes_inj m g (a + 1) (b + 1) n (cc) i (omega arith))

-- Two changes to adjoining regions.
pub SameOutside-trans :
    {m g h : Mem} (a n k : ℕ)
    → SameOutside a n m g
    → SameOutside (a + n) k g h
    → SameOutside a (n + k) m h
SameOutside-trans a n k p q x (inl l) = q x (inl (omega arith)) ∙ p x (inl (omega arith))
SameOutside-trans a n k p q x (inr r) = q x (inr (omega arith)) ∙ p x (inr (omega arith))

pub SameOutside-mono :
    {m g : Mem} (a n b k : ℕ) → SameOutside a n m g → b ≤ a → a + n ≤ b + k → SameOutside b k m g
SameOutside-mono a n b k p le le' x (inl l) = p x (inl (omega arith))
SameOutside-mono a n b k p le le' x (inr r) = p x (inr (omega arith))

pub store8-SameOutside : (m : Mem) (a v : ℕ) → SameOutside a 1 m (store8 m a v)
store8-SameOutside m a v x (inl l) = ground arith
store8-SameOutside m a v x (inr r) = ground arith
