-- ===== src/Queues/FreeList/Chain.antt =====
-- Chains of nodes, and what a store does to them.
use tiny_base.Base.{ℕ, ◌≡◌, ◌≢◌, refl, sym, ◌∙◌, List, [], ◌∷◌, ◌++◌, ne→==, ==_refl}
use tiny_base.Atomic.{Heap, store}

-- From the node `x`, the nodes `xs` follow, and the last of all is `last`, whose `Next` is null.
abbrev pub Chain : Heap → (x : ℕ) → List ℕ → (last : ℕ) → Type 0
Chain h x [] last = (last ≡ x) × (h x ≡ 0)
Chain h x (y ∷ ys) last = (h x ≡ y) × Chain h y ys last

abbrev pub NotIn : ℕ → List ℕ → Type 0
NotIn x [] = Unit {0}
NotIn x (y ∷ ys) = (x ≢ y) × NotIn x ys

abbrev pub AllDistinct : List ℕ → Type 0
AllDistinct [] = Unit {0}
AllDistinct (x ∷ xs) = NotIn x xs × AllDistinct xs

pub NotIn-append : (x : ℕ) (ys : List ℕ) (z : ℕ) → NotIn x ys → x ≢ z → NotIn x (ys ++ (z ∷ []))
NotIn-append x [] z n ne = (ne, _)
NotIn-append x (y ∷ ys) z n ne = (n.0, NotIn-append x ys z n.1 ne)

pub AllDistinct-append :
    (xs : List ℕ) (z : ℕ) → AllDistinct xs → NotIn z xs → AllDistinct (xs ++ (z ∷ []))
AllDistinct-append [] z d n = (_, _)
AllDistinct-append (x ∷ xs) z d n =
    (NotIn-append x xs z d.0 (λ e. n.0 (sym e)), AllDistinct-append xs z d.1 n.1)

-- A store at a node outside the chain does not change it.
pub Chain-store :
    (h : Heap) (x : ℕ) (xs : List ℕ) (last a v : ℕ)
    → NotIn a (x ∷ xs)
    → Chain h x xs last
    → Chain (store h a v) x xs last
Chain-store h x [] last a v n c = (c.0, rw (ne→== x a (λ e. n.0 (sym e))) c.1)
Chain-store h x (y ∷ ys) last a v n c =
    (rw (ne→== x a (λ e. n.0 (sym e))) c.0, Chain-store h y ys last a v n.1 c.1)

-- The last node of a chain is one of its nodes.
last-NotIn :
    (h : Heap) (x : ℕ) (xs : List ℕ) (last a : ℕ) → Chain h x xs last → NotIn a (x ∷ xs) → a ≢ last
last-NotIn h x [] last a c n = λ e. n.0 (e ∙ c.0)
last-NotIn h x (y ∷ ys) last a c n = last-NotIn h y ys last a c.1 n.1

-- Linking a new node, whose `Next` is null, behind the last one.
pub Chain-link :
    (h : Heap) (x : ℕ) (xs : List ℕ) (last z : ℕ)
    → AllDistinct (x ∷ xs)
    → NotIn z (x ∷ xs)
    → Chain h x xs last
    → h z ≡ 0
    → Chain (store h last z) x (xs ++ (z ∷ [])) z
Chain-link h x [] last z d n c e =
    let ne : z ≢ last = last-NotIn h x [] last z c n in
    (rw (c.0, ==_refl x) refl, (refl, rw (ne→== z last ne) e))
Chain-link h x (y ∷ ys) last z d n c e =
    let ne : x ≢ last = last-NotIn h y ys last x c.1 d.0 in
    (rw (ne→== x last ne) c.0, Chain-link h y ys last z d.1 n.1 c.1 e)
