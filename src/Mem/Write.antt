-- ===== src/Mem/Write.antt =====
-- Several bytes stored one after the other, and what a buffer holds when they stand behind it.
use tiny_base.Base.{ℕ, ◌+◌, ◌<◌, ◌≡◌, inl, inr, refl, ap₂, ◌∙◌, arith, List, [], ◌∷◌, ◌++◌, length}
use tiny_base.Mem.{Mem, store8, bytes, SameOutside}

unfoldable pub write_bytes : Mem → ℕ → List ℕ → Mem
write_bytes m a [] = m
write_bytes m a (x ∷ xs) = write_bytes (store8 m a x) (a + 1) xs

abbrev pub AllBytes : List ℕ → Type 0
AllBytes [] = Unit {0}
AllBytes (x ∷ xs) = (x < 256) × AllBytes xs

pub AllBytes-append : (xs ys : List ℕ) → AllBytes xs → AllBytes ys → AllBytes (xs ++ ys)
AllBytes-append [] ys h k = k
AllBytes-append (x ∷ xs) ys h k = (h.0, AllBytes-append xs ys h.1 k)

pub write_bytes-SameOutside :
    (m : Mem) (a : ℕ) (xs : List ℕ) → SameOutside a (length xs) m (write_bytes m a xs)
unfolding write_bytes
write_bytes-SameOutside m a [] x h = refl
write_bytes-SameOutside m a (v ∷ xs) x (inl l) =
    write_bytes-SameOutside (store8 m a v) (a + 1) xs x (inl (omega arith)) ∙ ground arith
write_bytes-SameOutside m a (v ∷ xs) x (inr r) =
    write_bytes-SameOutside (store8 m a v) (a + 1) xs x (inr (omega arith)) ∙ ground arith

pub bytes-write_bytes :
    (m : Mem) (a : ℕ) (xs : List ℕ) → AllBytes xs → bytes (write_bytes m a xs) a (length xs) ≡ xs
unfolding write_bytes
bytes-write_bytes m a [] h = refl
bytes-write_bytes m a (v ∷ xs) h =
    ap₂ ◌∷◌ (write_bytes-SameOutside (store8 m a v) (a + 1) xs a (inl (omega arith)) ∙ ground arith)
      (bytes-write_bytes (store8 m a v) (a + 1) xs h.1)
