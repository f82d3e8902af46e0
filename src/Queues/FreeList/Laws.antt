-- ===== src/Queues/FreeList/Laws.antt =====
-- The free list implements an unbounded queue, for one thread at a time.
use tiny_base.Base.{
  ℕ, ◌≡◌, ◌≢◌, ◌⊎◌, inl, inr, refl, sym, ap, ◌∙◌, List, [], ◌∷◌, ◌++◌, ne→==, ==_refl,
}
use tiny_base.Atomic.{Heap, store}
use tiny_base.Queues.Fifo.{Op, push, pop, fifo_pop, AllNonNull, AllNonNull-append}
use tiny_base.Queues.FreeList.{
  MpscFreelist, init_mpsc_free_list, mpsc_free_list_push, mpsc_free_list_pop, pop_last,
}
use tiny_base.Queues.FreeList.Chain.{
  Chain, NotIn, AllDistinct, AllDistinct-append, Chain-store, Chain-link,
}

-- The tail is the first item.
abbrev FromItem : Heap → MpscFreelist → List ℕ → Type 0
FromItem h q [] = ⊥
FromItem h q (y ∷ ys) = (q.tail ≡ y) × Chain h y ys q.head

-- The tail is the stub, and the items follow it.
abbrev FromStub : Heap → MpscFreelist → List ℕ → Type 0
FromStub h q xs = (q.tail ≡ q.stub) × Chain h q.stub xs q.head

-- The list holds the items `xs`, in the order in which they were pushed.
pub record IsList (h : Heap) (q : MpscFreelist) (xs : List ℕ) : Type 0 where
  pub stub_non_null : q.stub ≢ 0
  pub distinct : AllDistinct (q.stub ∷ xs)
  pub non_null : AllNonNull xs
  pub place : FromStub h q xs ⊎ FromItem h q xs

append_place :
    (h : Heap) (q : MpscFreelist) (xs : List ℕ) (item : ℕ)
    → AllDistinct (q.stub ∷ xs)
    → NotIn item (q.stub ∷ xs)
    → FromStub h q xs ⊎ FromItem h q xs
    → FromStub (store (store h item 0) q.head item) (record q { head = item }) (xs ++ (item ∷ []))
      ⊎ FromItem (store (store h item 0) q.head item) (record q { head = item }) (xs ++ (item ∷ []))
append_place h q xs item d n (inl (e, c)) = inl (
  e,
  Chain-link (store h item 0) q.stub xs q.head item d n (Chain-store h q.stub xs q.head item 0 n c)
      (rw (==_refl item) refl),
)
append_place h q [] item d n (inr none_left) = elim none_left [ ]
append_place h q (y ∷ ys) item d n (inr (e, c)) = inr (
  e,
  Chain-link (store h item 0) y ys q.head item d.1 n.1 (Chain-store h y ys q.head item 0 n.1 c)
      (rw (==_refl item) refl),
)

push-IsList :
    (h : Heap) (q : MpscFreelist) (xs : List ℕ) (item : ℕ)
    → IsList h q xs
    → item ≢ 0
    → NotIn item (q.stub ∷ xs)
    → IsList (mpsc_free_list_push h q item).1 (mpsc_free_list_push h q item).0 (xs ++ (item ∷ []))
unfolding mpsc_free_list_push
push-IsList h q xs item l ne n = record {
  stub_non_null = l.stub_non_null;
  distinct = AllDistinct-append (q.stub ∷ xs) item l.distinct n;
  non_null = AllNonNull-append xs item l.non_null ne;
  place = append_place h q xs item l.distinct n l.place;
}

-- The first item comes off: the next one is the tail, or the stub where there is none.
pop_last-IsList :
    (h : Heap) (q : MpscFreelist) (y : ℕ) (ys : List ℕ)
    → q.stub ≢ 0
    → AllDistinct (q.stub ∷ y ∷ ys)
    → AllNonNull (y ∷ ys)
    → FromItem h q (y ∷ ys)
    → (q' : MpscFreelist) × (h' : Heap) × (pop_last h q y (h y) ≡ (y, q', h'))
      × (q'.stub ≡ q.stub)
      × IsList h' q' ys
unfolding pop_last mpsc_free_list_push
pop_last-IsList h q y [] ne d a (e, c) =
    let h' = store (store h q.stub 0) y q.stub in
    (
      record q { head = q.stub; tail = q.stub },
      h',
      rw (c.1, c.0, ==_refl y, ne→== q.stub 0 ne) refl,
      refl,
      record {
        stub_non_null = ne;
        distinct = (_, _);
        non_null = _;
        place = inl (refl, (refl, rw (ne→== q.stub y d.0.0, ==_refl q.stub) refl));
      },
    )
pop_last-IsList h q y (z ∷ zs) ne d a (e, c) = (
  record q { tail = z },
  h,
  rw (c.0, ne→== z 0 a.1.0) refl,
  refl,
  record { stub_non_null = ne; distinct = (d.0.1, d.1.1); non_null = a.1; place = inr (refl, c.1) },
)

-- What a pop of the list that holds `xs` does.
abbrev Popped : Heap → MpscFreelist → List ℕ → Type 0
Popped h q xs =
    (q' : MpscFreelist) × (h' : Heap) × (mpsc_free_list_pop h q ≡ ((fifo_pop xs).0, q', h'))
    × (q'.stub ≡ q.stub)
    × IsList h' q' (fifo_pop xs).1

pop_by_place :
    (h : Heap) (q : MpscFreelist) (xs : List ℕ)
    → IsList h q xs
    → FromStub h q xs ⊎ FromItem h q xs
    → Popped h q xs
unfolding mpsc_free_list_pop fifo_pop
pop_by_place h q [] l (inl (e, c)) = (q, h, rw (e, ==_refl q.stub, c.1) refl, refl, l)
pop_by_place h q (y ∷ ys) l (inl (e, c)) =
    let (q', h', runs, same, l') =
      pop_last-IsList h (record q { tail = y }) y ys l.stub_non_null l.distinct l.non_null
        (refl, c.1) in
    (q', h', rw (e, ==_refl q.stub, c.0, ne→== y 0 l.non_null.0) runs, same, l')
pop_by_place h q [] l (inr none_left) = elim none_left [ ]
pop_by_place h q (y ∷ ys) l (inr (e, c)) =
    let (q', h', runs, same, l') =
      pop_last-IsList h q y ys l.stub_non_null l.distinct l.non_null (e, c) in
    let not_stub : q.tail ≢ q.stub = λ e'. l.distinct.0.0 (sym e' ∙ e) in
    let start : mpsc_free_list_pop h q ≡ pop_last h q y (h y) =
      rw (ne→== q.tail q.stub not_stub) (ap (λ t. pop_last h q t (h t)) e) in
    (q', h', start ∙ runs, same, l')

-- The results of a client's pops in order: of the free list, and of the abstract queue.
pub run_list : Heap → MpscFreelist → List Op → List ℕ
run_list h q [] = []
run_list h q (push item ∷ ops) = let (q', h') = mpsc_free_list_push h q item in run_list h' q' ops
run_list h q (pop ∷ ops) = let (item, q', h') = mpsc_free_list_pop h q in item ∷ run_list h' q' ops

pub run_queue : List ℕ → List Op → List ℕ
run_queue xs [] = []
run_queue xs (push item ∷ ops) = run_queue (xs ++ (item ∷ [])) ops
run_queue xs (pop ∷ ops) = let (item, xs') = fifo_pop xs in item ∷ run_queue xs' ops

-- The client pushes nodes only, and none that is in the queue `xs` at that time.
abbrev pub PushesFresh : (stub : ℕ) → List ℕ → List Op → Type 0
PushesFresh stub xs [] = Unit {0}
PushesFresh stub xs (push item ∷ ops) =
    (item ≢ 0) × NotIn item (stub ∷ xs) × PushesFresh stub (xs ++ (item ∷ [])) ops
PushesFresh stub xs (pop ∷ ops) = PushesFresh stub (fifo_pop xs).1 ops

run_list-IsList :
    (ops : List Op) (h : Heap) (q : MpscFreelist) (xs : List ℕ)
    → IsList h q xs
    → PushesFresh q.stub xs ops
    → run_list h q ops ≡ run_queue xs ops
unfolding run_list run_queue mpsc_free_list_push
run_list-IsList [] h q xs l fresh = refl
run_list-IsList (push item ∷ ops) h q xs l fresh =
    run_list-IsList ops _ _ (xs ++ (item ∷ [])) (push-IsList h q xs item l fresh.0 fresh.1) fresh.2
run_list-IsList (pop ∷ ops) h q xs l fresh =
    let (q', h', runs, same, l') = pop_by_place h q xs l l.place in
    let later = run_list-IsList ops h' q' (fifo_pop xs).1 l' (rw same fresh) in
    rw runs (ap (λ t. (fifo_pop xs).0 ∷ t) later)

-- A free list that InitMPSCFreeList sets up, with null already in the `Next` of its stub, gives a
-- client that uses it from one thread, and pushes only nodes that are not null, not the stub and
-- not in the list at that time, the results of a first-in-first-out queue without bound: every pop
-- gives the oldest node, and null where there is none.
pub run_list_lem :
    (h : Heap) (stub : ℕ) (ops : List Op)
    → stub ≢ 0
    → h stub ≡ 0
    → PushesFresh stub [] ops
    → run_list h (init_mpsc_free_list stub) ops ≡ run_queue [] ops
unfolding init_mpsc_free_list
run_list_lem h stub ops ne clear fresh =
    run_list-IsList ops h (record { head = stub; tail = stub; stub = stub }) []
      (record {
        stub_non_null = ne;
        distinct = (_, _);
        non_null = _;
        place = inl (refl, (refl, clear));
      })
      fresh
