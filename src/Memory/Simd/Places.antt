-- ===== src/Memory/Simd/Places.antt =====
-- The loop at the end of the buffer searches by blocks.
use tiny_base.Base.{
  ℕ, zero, suc, ◌+◌, ◌-◌, ◌<◌, ◌≤◌, ◌≡◌, refl, sym, Bool, true, false, ◌&&◌, Option, some, arith,
  inl, inr, Bool-cases, ◌==◌, leb, if◌then◌else◌,
}
use tiny_base.Base.Loop.{search_up, search_up-none}
use tiny_base.Base.Word.{sub_usz}
use tiny_base.Mem.{Mem}
use tiny_base.Memory.{Buffer, buffer, IsReadable, idx_or_invalid, invalid_idx}
use tiny_base.Memory.Compare.{equal_buffers}
use tiny_base.Memory.Simd.{Vector}
use tiny_base.Memory.Simd.Needle.{last_matches, needle_tail}
use tiny_base.Types.FirstBit.{Target}

-- The nested tests of the loop at the end, as one.
nested :
    (a b c fits : Bool) (lo rest : ℕ) (o : Option ℕ)
    → fits ≡ true
    → rest ≡ idx_or_invalid o
    → (if a && b then if c then lo else rest else rest)
      ≡ idx_or_invalid (if a && (fits && b && c) then some lo else o)
nested true true true fits lo rest o e e' = rw e refl
nested true true false fits lo rest o e e' = rw e e'
nested true false c fits lo rest o e e' = rw e e'
nested false b c fits lo rest o e e' = e'

module _ (m : Mem) (needle h : Buffer) where
  -- The needle stands at index `i`, all of it in the haystack.
  unfoldable pub matches : ℕ → Bool
  matches i =
      (m (h.base + i) == m (needle.base))
      && (leb (needle.write_cur) (h.write_cur - i)
          && last_matches m needle (h.base + i)
          && equal_buffers m (buffer (h.base + i) (needle.write_cur) 0) needle)

  abbrev pub expected : (lo : ℕ) → ℕ
  expected lo = idx_or_invalid (search_up matches (h.write_cur - lo) lo)

module _ (t : Target) {lanes : ℕ} (v : Vector lanes) (m : Mem) (needle h : Buffer)
    (pos : 0 < needle.write_cur) (rh : IsReadable h) where
  too_late : (lo : ℕ) → h.write_cur - lo < needle.write_cur → expected m needle h lo ≡ invalid_idx
  unfolding matches
  too_late lo lt =
      rw (search_up-none (matches m needle h) (h.write_cur - lo) lo (λ j from to. ground arith))
        refl

  -- One round of the loop at the end.
  needle_tail_round :
      (fuel lo rest : ℕ)
      → needle.write_cur ≤ h.write_cur - lo
      → rest ≡ expected m needle h (lo + 1)
      → (if (m (h.base + lo) == m (needle.base)) && last_matches m needle (h.base + lo)
          then if equal_buffers m (buffer (h.base + lo) (needle.write_cur) 0) needle
            then sub_usz (h.base + lo) (h.base)
            else rest
          else rest)
        ≡ expected m needle h lo
  unfolding matches search_up
  needle_tail_round fuel lo rest le e =
      let left : h.write_cur - lo ≡ suc (h.write_cur - (lo + 1)) = omega arith in
      let fits : leb (needle.write_cur) (h.write_cur - lo) ≡ true = ground arith in
      let place : sub_usz (h.base + lo) (h.base) ≡ lo = omega arith in
      rw (left, place)
        (nested _ _ _ (leb (needle.write_cur) (h.write_cur - lo)) lo rest
          (search_up (matches m needle h) (h.write_cur - (lo + 1)) (lo + 1)) fits e)

  pub needle_tail-expected :
      (fuel lo : ℕ)
      → lo ≤ h.write_cur
      → h.write_cur - lo ≤ fuel
      → needle_tail t v m needle h fuel (h.base + lo) (h.write_cur - lo) ≡ expected m needle h lo
  unfolding needle_tail
  needle_tail-expected zero lo le le' = sym (too_late lo (omega arith))
  needle_tail-expected (suc fuel) lo le le' =
      elim (Bool-cases (leb (needle.write_cur) (h.write_cur - lo))) [
        | inl e ↦
            let enough : needle.write_cur ≤ h.write_cur - lo = ground arith in
            let next : h.base + lo + 1 ≡ h.base + (lo + 1) = omega arith in
            let less : sub_usz (h.write_cur - lo) 1 ≡ h.write_cur - (lo + 1) = omega arith in
            let rest = needle_tail-expected fuel (lo + 1) (omega arith) (omega arith) in
            rw (e, next, less) (needle_tail_round fuel lo _ enough rest)
        | inr f ↦ rw f (sym (too_late lo (ground arith)))
      ]
