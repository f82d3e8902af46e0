-- ===== src/Strings/Chars.antt =====
-- The functions of src/tinybase-strings.c that look for a character in a string, replace it, or step
-- over characters. A parameter whose address the code takes, as in `(u8*)&Needle`, stands in memory
-- at the address `local` during the call. `none` means that the fuel ran out.
pub mod Find
pub mod Advance
pub mod Count
pub mod Replace
use tiny_base.Base.{
  ℕ, zero, suc, ◌+◌, ◌*◌, ◌/◌, ◌%◌, ◌^◌, Bool, true, false, Option, none, some, List, [], ◌∷◌, ◌==◌,
  if◌then◌else◌,
}
use tiny_base.Base.Word.{u8, add_usz, sub_usz}
use tiny_base.Mem.Word.{load_bytes, store_bytes}
use tiny_base.Mem.{Mem}
use tiny_base.Mem.Write.{write_bytes}
use tiny_base.Memory.{Buffer, buffer, invalid_idx, return_idx_find, return_idx_after}
use tiny_base.Memory.Search.{Kernels, byte_in_buffer, buffer_in_buffer}
use tiny_base.Memory.Edit.{advance_buffer, copy_data, replace_byte_in_buffer}
use tiny_base.Encoding.{Encoding}
use tiny_base.Encoding.Char.{
  get_multibyte_char_size, get_next_char_size, adjust_endianness, read_bytes,
}
use tiny_base.Strings.{String}
use tiny_base.Strings.Append.{store_word}

module _ (k : Kernels) (local : ℕ) where
  pub char_in_string : Mem → (needle : ℕ) → String → (flags : ℕ) → ℕ
  char_in_string m needle haystack flags =
      let needle_size = get_multibyte_char_size needle haystack.enc in
      if needle_size == 1
      then byte_in_buffer k m (u8 needle) haystack.buf flags
      else buffer_in_buffer k (store_word m local needle) (buffer local needle_size 0) haystack.buf
          flags

  -- The loop of CountCharInString, which passes the string on behind each character found.
  pub count_loop : ℕ → Mem → (needle : ℕ) → String → (result : ℕ) → Option ℕ
  count_loop zero m needle haystack result = none
  count_loop (suc fuel) m needle haystack result =
      let idx = char_in_string m needle haystack return_idx_after in
      let rest =
        count_loop fuel m needle (record haystack { buf = advance_buffer haystack.buf idx })
          (add_usz result 1) in
      if idx == invalid_idx then some result else rest

  pub count_char_in_string : ℕ → Mem → (needle : ℕ) → String → Option ℕ
  count_char_in_string fuel m needle haystack = count_loop fuel m needle haystack 0

  -- The loop of ReplaceCharInString for characters of several bytes. `new_char` is the address of
  -- the parameter `New`, `local` that of the one of CharInString.
  pub replace_loop : (new_char : ℕ) → ℕ → Mem → (old new_len : ℕ) → String → Option Mem
  replace_loop new_char zero m old new_len a = none
  replace_loop new_char (suc fuel) m old new_len a =
      let found_idx = char_in_string m old a return_idx_find in
      let buf = advance_buffer a.buf found_idx in
      let (_, m') = copy_data m buf.base buf.write_cur new_char new_len in
      let rest =
        replace_loop new_char fuel m' old new_len (record a { buf = advance_buffer buf new_len }) in
      if found_idx == invalid_idx then some m else rest

  pub replace_char_in_string :
      (new_char : ℕ) → ℕ → Mem → (old new : ℕ) → String → Option (Bool × Mem)
  replace_char_in_string new_char fuel m old new a =
      let old_len = get_multibyte_char_size old a.enc in
      let new_len = get_multibyte_char_size new a.enc in
      let done : Option Mem → Option (Bool × Mem) =
        λ o. elim o [ none ↦ none | some m' ↦ some (true, m') ] in
      if old_len == new_len
      then (if new_len == 1
          then done (replace_byte_in_buffer k fuel m (u8 old) (u8 new) a.buf)
          else done (replace_loop new_char fuel (store_word m new_char new) old new_len a))
      else some (false, m)

-- `while (NumChars--)`. The step is a `u32` and the fields are `usz`.
pub advance_string : Mem → Encoding → (num_chars : ℕ) → Buffer → Buffer
advance_string m enc zero dst = dst
advance_string m enc (suc num_chars) dst =
    let bytes_to_advance = get_next_char_size m dst.base enc in
    advance_string m enc num_chars (record {
      base = dst.base + bytes_to_advance;
      write_cur = sub_usz dst.write_cur bytes_to_advance;
      size = sub_usz dst.size bytes_to_advance;
    })

-- `src` is the address of the caller's pointer. The size is that of the character that would stand
-- there, not of the one that the pointer leads to, and the pointer is stored as it was.
pub eat_next_char : Mem → (src : ℕ) → Encoding → ℕ × Mem
eat_next_char m src enc =
    let ptr = load_bytes m src 8 in
    let size = get_next_char_size m src enc in
    (adjust_endianness (read_bytes m ptr size) enc, store_bytes m src ptr 8)
