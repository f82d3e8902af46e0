-- ===== src/Memory/Compare/Laws.antt =====
-- What a comparison of buffers reports.
use tiny_base.Base.{
  ℕ, ◌+◌, ◌-◌, ◌^◌, ◌≤◌, ◌<◌, ◌≡◌, ◌≢◌, ◌↔◌, ◌⊎◌, refl, Bool, true, not, none, some, Option, inl,
  inr, sym, ◌∙◌, ap, arith, ◌==◌, length,
}
use tiny_base.Base.Word.{sub_usz}
use tiny_base.Base.Loop.{IsFirst, search_up-IsFirst}
use tiny_base.Mem.{Mem, bytes}
use tiny_base.Mem.Laws.{bytes_ext, bytes_inj, length-bytes}
use tiny_base.Memory.{
  Buffer, contents, IsReadable, return_bool, return_idx_diff, return_ptr_diff, of_bool,
}
use tiny_base.Memory.Compare.{
  compare_ptr_simple, compare_idx, compare_bool, compare_buffers, equal_buffers,
}

-- `d` is the length of the longest common prefix of the two regions, up to `amount` bytes.
abbrev pub IsDiff : Mem → (a b amount d : ℕ) → Type 0
IsDiff m a b amount d =
    (d ≤ amount)
    × ((i : ℕ) → i < d → m (a + i) ≡ m (b + i))
    × ((d ≡ amount) ⊎ (m (a + d) ≢ m (b + d)))

differ : Mem → ℕ → ℕ → ℕ → Bool
differ m a b i = not (m (a + i) == m (b + i))

prefix_of :
    (m : Mem) (a b amount : ℕ) (o : Option ℕ)
    → IsFirst (λ i. not (m (a + i) == m (b + i))) 0 amount o
    → (d : ℕ) × IsDiff m a b amount d × ((elim o [ some i ↦ a + i | none ↦ a + amount ]) ≡ a + d)
prefix_of m a b amount none h = (amount, (omega arith, λ i lt. ground (arith, h i), inl refl), refl)
prefix_of m a b amount (some i) h =
    (i, (omega arith, λ j lt. ground (arith, h.3 j), inr (ground arith)), refl)

pub compare_ptr_simple-IsDiff :
    (m : Mem) (a b amount : ℕ)
    → (d : ℕ) × IsDiff m a b amount d × (compare_ptr_simple m a b amount ≡ a + d)
unfolding compare_ptr_simple
compare_ptr_simple-IsDiff m a b amount =
    prefix_of m a b amount _ (search_up-IsFirst _ amount 0 amount (omega arith))

pub compare_idx-IsDiff :
    (m : Mem) (a b : Buffer) (amount : ℕ)
    → a.base + amount < 2 ^ 64
    → IsDiff m a.base b.base amount (compare_idx m a b amount)
unfolding compare_idx
compare_idx-IsDiff m a b amount h =
    let (d, diff, e) = compare_ptr_simple-IsDiff m a.base b.base amount in
    let e' : sub_usz (a.base + d) a.base ≡ d = omega arith in rw (e, e') diff

-- For `AmountToCompare` bytes of both buffers that lie in the address space, whatever the cursors
-- are, the three forms of CompareBuffers report the first index at which the bytes differ, or the
-- amount where they do not: as an index, as a pointer into the first buffer, and as a test for full
-- agreement. The header says otherwise in two places: that the comparison stops at the smaller
-- WriteCur, while bytes behind the cursors count here; and that RETURN_PTR_DIFF gives the length
-- where the bytes agree, while it gives the pointer behind them.
pub compare_buffers_lem :
    (m : Mem) (a b : Buffer) (amount : ℕ)
    → a.base + amount < 2 ^ 64
    → b.base + amount < 2 ^ 64
    → (d : ℕ) × IsDiff m a.base b.base amount d
      × (compare_buffers m a b amount return_idx_diff ≡ d)
      × (compare_buffers m a b amount return_ptr_diff ≡ a.base + d)
      × (compare_buffers m a b amount return_bool ≡ of_bool (d == amount))
unfolding compare_buffers compare_bool compare_idx
compare_buffers_lem m a b amount h inside =
    let (d, diff, e) = compare_ptr_simple-IsDiff m a.base b.base amount in
    let e' : sub_usz (a.base + d) a.base ≡ d = omega arith in (d, diff, rw (e, e'), e, rw (e, e'))

sound :
    (m : Mem) (a b : Buffer)
    → IsReadable a
    → equal_buffers m a b ≡ true
    → contents m a ≡ contents m b
unfolding equal_buffers
sound m a b h e = rw len (bytes_ext m m b.base a.base b.write_cur same)
  where
    len : a.write_cur ≡ b.write_cur
    len = ground arith

    same : (i : ℕ) → i < b.write_cur → m (a.base + i) ≡ m (b.base + i)
    same i lt =
        let diff = compare_idx-IsDiff m a b a.write_cur h in
        let whole : compare_idx m a b a.write_cur ≡ a.write_cur = ground (arith, len) in
        diff.1 i (omega (arith, len))

complete :
    (m : Mem) (a b : Buffer)
    → IsReadable a
    → contents m a ≡ contents m b
    → equal_buffers m a b ≡ true
unfolding equal_buffers
complete m a b h e = ground (arith, len, first, last, whole)
  where
    len : a.write_cur ≡ b.write_cur
    len = sym (length-bytes m a.base a.write_cur) ∙ ap length e ∙ length-bytes m b.base b.write_cur

    same : (i : ℕ) → i < a.write_cur → m (a.base + i) ≡ m (b.base + i)
    same = bytes_inj m m b.base a.base a.write_cur (e ∙ ap (bytes m b.base) (sym len))

    first : a.write_cur ≢ 0 → m a.base ≡ m b.base
    first ne =
        ap m (let e : a.base ≡ a.base + 0 = omega arith in e)
        ∙ same 0 (omega arith)
        ∙ ap m (let e : b.base + 0 ≡ b.base = omega arith in e)

    last : a.write_cur ≢ 0 → m (a.base + (a.write_cur - 1)) ≡ m (b.base + (b.write_cur - 1))
    last ne = rw (← len) (same (a.write_cur - 1) (omega arith))

    whole : a.write_cur ≡ compare_idx m a b a.write_cur
    whole = full (compare_idx m a b a.write_cur) (compare_idx-IsDiff m a b a.write_cur h)
      where
        full : (d : ℕ) → IsDiff m a.base b.base a.write_cur d → a.write_cur ≡ d
        full d (le, _, inl eq) = sym eq
        full d (le, _, inr ne) = grind (arith, same d)

-- EqualBuffers decides whether the two buffers hold the same bytes: equal lengths and contents.
pub equal_buffers_iff :
    (m : Mem) (a b : Buffer)
    → IsReadable a
    → (equal_buffers m a b ≡ true) ↔ (contents m a ≡ contents m b)
equal_buffers_iff m a b h = (sound m a b h, complete m a b h)
