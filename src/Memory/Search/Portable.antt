-- ===== src/Memory/Search/Portable.antt =====
-- The portable loops find the first or last place.
use tiny_base.Base.{
  ℕ, zero, suc, ◌+◌, ◌-◌, ◌≤◌, ◌<◌, ◌≡◌, refl, ap, sym, ◌∙◌, Bool, true, false, Option, none, some,
  arith, ◌==◌, leb, ltb, if◌then◌else◌, Bool-cases, inl, inr,
}
use tiny_base.Base.Loop.{search_up, IsFirst, IsLast, search_up-IsFirst, search_down-IsLast}
use tiny_base.Base.Word.{add_usz, sub_usz}
use tiny_base.Mem.{Mem}
use tiny_base.Mem.Laws.{bytes_inj}
use tiny_base.Memory.{Buffer, buffer, IsReadable, idx_or_invalid, invalid_idx}
use tiny_base.Memory.Compare.Laws.{equal_buffers_iff}
use tiny_base.Memory.Search.{
  byte_in_buffer_idx_simple, reverse_byte_in_buffer_idx_simple, needle_at, portable,
  buffer_in_buffer_idx_simple, reverse_buffer_in_buffer_idx_simple,
}
use tiny_base.Memory.Search.Spec.{IsLeast, IsGreatest, ByteAt, OccursAt, IsCorrect}

-- The whole of a downward search: the loop stops at index 0, which is tested after it.
abbrev from_top : (ℕ → Bool) → Option ℕ → ℕ
from_top p o = elim o [ some i ↦ i | none ↦ if p 0 then 0 else invalid_idx ]

module _ (p : ℕ → Bool) (P : ℕ → Type 0) (n : ℕ) (sound : (i : ℕ) → i < n → p i ≡ true → P i)
    (complete : (i : ℕ) → P i → (i < n) × (p i ≡ true)) where
  pub IsFirst-IsLeast : (o : Option ℕ) → IsFirst p 0 n o → IsLeast P o
  IsFirst-IsLeast none h = λ j q. let (lt, t) = complete j q in ground (arith, h j)
  IsFirst-IsLeast (some i) h =
      (sound i h.1 h.2, λ j lt q. let (_, t) = complete j q in ground (arith, h.3 j))

  IsLast-IsGreatest :
      (o : Option ℕ)
      → 0 < n
      → IsLast p 1 n o
      → (o' : Option ℕ) × IsGreatest P o' × (from_top p o ≡ idx_or_invalid o')
  IsLast-IsGreatest (some i) pos h = (
    some i,
    (sound i h.1 h.2, λ j lt q. let (b, t) = complete j q in ground (arith, h.3 j)),
    refl,
  )
  IsLast-IsGreatest none pos h = elim (Bool-cases (p 0)) [
    | inl t ↦
        (some 0, (sound 0 pos t, λ j lt q. let (b, t) = complete j q in ground (arith, h j)), rw t)
    | inr f ↦ (none, later f, rw f)
  ]
    where
      later : p 0 ≡ false → (j : ℕ) → ¬ P j
      later f zero q = let (b, t) = complete 0 q in cc
      later f (suc j) q = let (b, t) = complete (suc j) q in ground (arith, h (suc j))

byte_in_buffer_idx_simple_lem :
    (m : Mem) (needle : ℕ) (h : Buffer)
    → (o : Option ℕ) × IsLeast (ByteAt m needle h) o
      × (byte_in_buffer_idx_simple m needle h ≡ idx_or_invalid o)
unfolding byte_in_buffer_idx_simple
byte_in_buffer_idx_simple_lem m needle h = (
  search_up (λ i. needle == m (h.base + i)) h.write_cur 0,
  IsFirst-IsLeast _ (ByteAt m needle h) h.write_cur (λ i lt t. (lt, ground arith))
      (λ i q. (q.0, ground arith)) _ (search_up-IsFirst _ h.write_cur 0 h.write_cur (omega arith)),
  refl,
)

pub reverse_byte_in_buffer_idx_simple_lem :
    (m : Mem) (needle : ℕ) (h : Buffer)
    → (o : Option ℕ) × IsGreatest (ByteAt m needle h) o
      × (reverse_byte_in_buffer_idx_simple m needle h ≡ idx_or_invalid o)
unfolding reverse_byte_in_buffer_idx_simple
reverse_byte_in_buffer_idx_simple_lem m needle h = elim (Bool-cases (ltb 0 h.write_cur)) [
  | inl t ↦ rw t (
      IsLast-IsGreatest (λ i. m (h.base + i) == needle) (ByteAt m needle h) h.write_cur
        (λ i lt e. (lt, ground arith)) (λ i q. (q.0, ground arith)) _ (ground arith)
        (search_down-IsLast _ (h.write_cur - 1) h.write_cur (ground arith)))
  | inr f ↦ rw f (none, (λ j q. ground arith), refl)
]

module _ (m : Mem) (needle h : Buffer) (pos : 0 < needle.write_cur) (rn : IsReadable needle)
    (rh : IsReadable h) where
  needle_at-OccursAt :
      (i : ℕ)
      → i + needle.write_cur ≤ h.write_cur
      → needle_at m needle h i ≡ true
      → OccursAt m needle h i
  unfolding needle_at
  needle_at-OccursAt i le t = (
    le,
    (equal_buffers_iff m (buffer (h.base + i) needle.write_cur 0) needle (omega arith)).0
        (ground arith),
  )

  OccursAt-needle_at : (i : ℕ) → OccursAt m needle h i → needle_at m needle h i ≡ true
  unfolding needle_at
  OccursAt-needle_at i (le, e) =
      let e1 : add_usz h.base (sub_usz (add_usz i needle.write_cur) 1)
          ≡ h.base + i + (needle.write_cur - 1) =
        omega arith in
      let e2 : add_usz needle.base (sub_usz needle.write_cur 1)
          ≡ needle.base + (needle.write_cur - 1) =
        omega arith in
      let e3 : h.base + i + 0 ≡ h.base + i = omega arith in
      let e4 : needle.base + 0 ≡ needle.base = omega arith in
      let same = bytes_inj m m needle.base (h.base + i) needle.write_cur e in
      let first : m (h.base + i) ≡ m needle.base = ap m (sym e3) ∙ same 0 pos ∙ ap m e4 in
      let last = same (needle.write_cur - 1) (omega arith) in
      let all =
        (equal_buffers_iff m (buffer (h.base + i) needle.write_cur 0) needle (omega arith)).1 e in
      rw (e1, e2, all) (ground (arith, first, last))

  buffer_in_buffer_idx_simple_lem :
      (o : Option ℕ) × IsLeast (OccursAt m needle h) o
      × (buffer_in_buffer_idx_simple m needle h ≡ idx_or_invalid o)
  unfolding buffer_in_buffer_idx_simple
  buffer_in_buffer_idx_simple_lem = elim (Bool-cases (leb needle.write_cur h.write_cur)) [
    | inl t ↦
        let e : add_usz (sub_usz h.write_cur needle.write_cur) 1
            ≡ h.write_cur - needle.write_cur + 1 =
          ground arith in
        rw (t, e)
          (
            search_up (needle_at m needle h) (h.write_cur - needle.write_cur + 1) 0,
            IsFirst-IsLeast _ (OccursAt m needle h) (h.write_cur - needle.write_cur + 1)
                (λ i lt. needle_at-OccursAt i (ground arith))
                (λ i q. (ground arith, OccursAt-needle_at i q)) _
                (search_up-IsFirst _ _ 0 _ (omega arith)),
            refl,
          )
    | inr f ↦ rw f (none, (λ j q. ground arith), refl)
  ]

  pub reverse_buffer_in_buffer_idx_simple_lem :
      (o : Option ℕ) × IsGreatest (OccursAt m needle h) o
      × (reverse_buffer_in_buffer_idx_simple m needle h ≡ idx_or_invalid o)
  unfolding reverse_buffer_in_buffer_idx_simple
  reverse_buffer_in_buffer_idx_simple_lem = elim (Bool-cases (leb needle.write_cur h.write_cur)) [
    | inl t ↦
        let e : sub_usz h.write_cur needle.write_cur ≡ h.write_cur - needle.write_cur =
          ground arith in
        rw (t, e)
          (IsLast-IsGreatest (needle_at m needle h) (OccursAt m needle h)
            (h.write_cur - needle.write_cur + 1) (λ i lt. needle_at-OccursAt i (ground arith))
            (λ i q. (ground arith, OccursAt-needle_at i q)) _ (omega arith)
            (search_down-IsLast _ _ _ (omega arith)))
    | inr f ↦ rw f (none, (λ j q. ground arith), refl)
  ]

-- The portable searches are correct: for a readable haystack the byte search gives the least index
-- that holds the byte, the buffer search with a nonempty readable needle gives the least index
-- where all of it occurs, and both give INVALID_IDX exactly where there is no such index.
pub portable-IsCorrect : IsCorrect portable
portable-IsCorrect = record {
  finds_byte = λ m needle h _. byte_in_buffer_idx_simple_lem m needle h;
  finds_buffer = λ m needle h pos rn rh. buffer_in_buffer_idx_simple_lem m needle h pos rn rh;
}
