-- ===== src/Memory/Search.antt =====
-- The search part of src/tinybase-memory.c (ByteInBuffer, BufferInBuffer, DataInBuffer). The C code
-- calls the two forward searches through function pointers, `Kernels` here, which start as the
-- portable loops.
pub mod Spec
pub mod Portable
pub mod Laws
use tiny_base.Base.{
  ℕ, ◌+◌, ◌-◌, Bool, true, false, not, ◌&&◌, Option, none, some, ltb, leb, ◌==◌, if◌then◌else◌,
}
use tiny_base.Base.Loop.{search_up, search_down}
use tiny_base.Base.Word.{add_usz, sub_usz}
use tiny_base.Mem.{Mem}
use tiny_base.Memory.{
  Buffer, buffer, has_flag, return_bool, return_idx_find, return_idx_after, return_ptr_after,
  search_reverse, of_bool, invalid_idx, idx_or_invalid,
}
use tiny_base.Memory.Compare.{equal_buffers}

-- `_ByteInBufferIdx` and `_BufferInBufferIdx`, the pointers that InitBuffersArch may change.
pub record Kernels : Type 0 where
  pub byte_in_buffer_idx : Mem → ℕ → Buffer → ℕ
  pub buffer_in_buffer_idx : Mem → Buffer → Buffer → ℕ

unfoldable pub byte_in_buffer_idx_simple : Mem → ℕ → Buffer → ℕ
byte_in_buffer_idx_simple m needle h =
    idx_or_invalid (search_up (λ i. needle == m (h.base + i)) h.write_cur 0)

pub reverse_byte_in_buffer_idx_simple : Mem → ℕ → Buffer → ℕ
reverse_byte_in_buffer_idx_simple m needle h =
    if ltb 0 h.write_cur
    then elim (search_down (λ i. m (h.base + i) == needle) (h.write_cur - 1)) [
      | some i ↦ i
      | none ↦ if m (h.base + 0) == needle then 0 else invalid_idx
    ]
    else invalid_idx

-- The test of both buffer searches at index `i`: first byte, last byte, then all of them. With an
-- empty needle the index of its last byte wraps.
unfoldable pub needle_at : Mem → Buffer → Buffer → ℕ → Bool
needle_at m needle h i =
    (m (h.base + i) == m needle.base)
    && (m (add_usz h.base (sub_usz (add_usz i needle.write_cur) 1))
        == m (add_usz needle.base (sub_usz needle.write_cur 1)))
    && equal_buffers m (buffer (h.base + i) needle.write_cur 0) needle

unfoldable pub buffer_in_buffer_idx_simple : Mem → Buffer → Buffer → ℕ
buffer_in_buffer_idx_simple m needle h =
    if leb needle.write_cur h.write_cur
    then idx_or_invalid
        (search_up (needle_at m needle h) (add_usz (sub_usz h.write_cur needle.write_cur) 1) 0)
    else invalid_idx

pub reverse_buffer_in_buffer_idx_simple : Mem → Buffer → Buffer → ℕ
reverse_buffer_in_buffer_idx_simple m needle h =
    if leb needle.write_cur h.write_cur
    then elim (search_down (needle_at m needle h) (sub_usz h.write_cur needle.write_cur)) [
      | some i ↦ i
      | none ↦ if needle_at m needle h 0 then 0 else invalid_idx
    ]
    else invalid_idx

-- The initial values of the pointers.
abbrev pub portable : Kernels
portable = record {
  byte_in_buffer_idx = byte_in_buffer_idx_simple;
  buffer_in_buffer_idx = buffer_in_buffer_idx_simple;
}

-- The five result forms of a search that found `idx`: `_(Reverse)(Byte|Buffer)InBuffer` with
-- `Bool`, `IdxFind`, `IdxAfter`, `PtrAfter` and `PtrFind`, for a needle of `n` bytes.
pub as_bool : ℕ → ℕ
as_bool idx = of_bool (not (idx == invalid_idx))

pub as_idx_after : (n idx : ℕ) → ℕ
as_idx_after n idx = if not (idx == invalid_idx) then add_usz idx n else idx

pub as_ptr_after : (base n idx : ℕ) → ℕ
as_ptr_after base n idx = if not (idx == invalid_idx) then add_usz (add_usz base idx) n else 0

pub as_ptr_find : (base idx : ℕ) → ℕ
as_ptr_find base idx = if not (idx == invalid_idx) then add_usz base idx else 0

pub dispatch : (flags base n idx : ℕ) → ℕ
unfolding as_bool as_idx_after as_ptr_after as_ptr_find
dispatch flags base n idx =
    if has_flag flags return_bool
    then as_bool idx
    else if has_flag flags return_idx_find
    then idx
    else if has_flag flags return_idx_after
    then as_idx_after n idx
    else if has_flag flags return_ptr_after
    then as_ptr_after base n idx
    else as_ptr_find base idx

module _ (k : Kernels) where
  pub byte_in_buffer : Mem → (needle : ℕ) → Buffer → (flags : ℕ) → ℕ
  byte_in_buffer m needle h flags =
      if has_flag flags search_reverse
      then dispatch flags h.base 1 (reverse_byte_in_buffer_idx_simple m needle h)
      else dispatch flags h.base 1 (k.byte_in_buffer_idx m needle h)

  pub buffer_in_buffer : Mem → Buffer → Buffer → (flags : ℕ) → ℕ
  buffer_in_buffer m needle h flags =
      if has_flag flags search_reverse
      then dispatch flags h.base needle.write_cur (reverse_buffer_in_buffer_idx_simple m needle h)
      else dispatch flags h.base needle.write_cur (k.buffer_in_buffer_idx m needle h)

  pub data_in_buffer : Mem → (needle needle_size : ℕ) → Buffer → (flags : ℕ) → ℕ
  data_in_buffer m needle needle_size h flags =
      buffer_in_buffer m (buffer needle needle_size 0) h flags
