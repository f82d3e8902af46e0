-- ===== src/Memory/Search/Spec.antt =====
-- What a search promises, independently of how it runs.
use tiny_base.Base.{ℕ, ◌+◌, ◌≤◌, ◌<◌, ◌≡◌, Option, none, some}
use tiny_base.Mem.{Mem, bytes}
use tiny_base.Memory.{
  Buffer, contents, IsReadable, return_bool, return_idx_find, return_idx_after, return_ptr_find,
  return_ptr_after, invalid_idx, idx_or_invalid,
}
use tiny_base.Memory.Search.{Kernels}

abbrev pub IsLeast : (ℕ → Type 0) → Option ℕ → Type 0
IsLeast P none = (j : ℕ) → ¬ P j
IsLeast P (some i) = P i × ((j : ℕ) → j < i → ¬ P j)

abbrev pub IsGreatest : (ℕ → Type 0) → Option ℕ → Type 0
IsGreatest P none = (j : ℕ) → ¬ P j
IsGreatest P (some i) = P i × ((j : ℕ) → i < j → ¬ P j)

-- The written part of `h` holds the byte at index `i`.
abbrev pub ByteAt : Mem → ℕ → Buffer → ℕ → Type 0
ByteAt m needle h i = (i < h.write_cur) × (m (h.base + i) ≡ needle)

-- The written part of `h` holds all the bytes of `needle` from index `i` on.
abbrev pub OccursAt : Mem → Buffer → Buffer → ℕ → Type 0
OccursAt m needle h i =
    (i + needle.write_cur ≤ h.write_cur)
    × (bytes m (h.base + i) needle.write_cur ≡ contents m needle)

-- `find` gives the forms of a result for a needle of `n` bytes. `direction` is 0, or
-- SEARCH_REVERSE.
abbrev pub Reports : (find : ℕ → ℕ) (direction base n : ℕ) → Option ℕ → Type 0
Reports find direction base n none =
    (find (return_bool + direction) ≡ 0)
    × (find (return_idx_find + direction) ≡ invalid_idx)
    × (find (return_idx_after + direction) ≡ invalid_idx)
    × (find (return_ptr_find + direction) ≡ 0)
    × (find (return_ptr_after + direction) ≡ 0)
Reports find direction base n (some i) =
    (find (return_bool + direction) ≡ 1)
    × (find (return_idx_find + direction) ≡ i)
    × (find (return_idx_after + direction) ≡ i + n)
    × (find (return_ptr_find + direction) ≡ base + i)
    × (find (return_ptr_after + direction) ≡ base + i + n)

-- What the callers rely on in the two searches behind function pointers.
pub record IsCorrect (k : Kernels) : Type 0 where
  pub finds_byte :
      (m : Mem) (needle : ℕ) (h : Buffer)
      → IsReadable h
      → (o : Option ℕ) × IsLeast (ByteAt m needle h) o
        × (k.byte_in_buffer_idx m needle h ≡ idx_or_invalid o)
  pub finds_buffer :
      (m : Mem) (needle h : Buffer)
      → 0 < needle.write_cur
      → IsReadable needle
      → IsReadable h
      → (o : Option ℕ) × IsLeast (OccursAt m needle h) o
        × (k.buffer_in_buffer_idx m needle h ≡ idx_or_invalid o)
