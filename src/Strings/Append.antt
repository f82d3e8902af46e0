-- ===== src/Strings/Append.antt =====
-- The append functions of src/tinybase-strings.c. A parameter whose address the code takes, as in
-- `(u8*)&Src`, stands in memory at the address `local` during the call.
pub mod Local
pub mod Char
pub mod Text
use tiny_base.Base.{
  ℕ, zero, suc, ◌+◌, ◌==◌, Bool, true, Option, none, some, List, [], ◌∷◌, if◌then◌else◌,
}
use tiny_base.Mem.{Mem}
use tiny_base.Mem.Write.{write_bytes}
use tiny_base.Memory.{Buffer, buffer}
use tiny_base.Memory.Edit.{
  append_data_to_buffer, append_buffer_to_buffer, append_buffer_to_buffer_n_times,
}
use tiny_base.Encoding.{Encoding, enc_value}
use tiny_base.Encoding.Char.{get_multibyte_char_size, adjust_endianness}
use tiny_base.Strings.{String}
use tiny_base.Strings.Transcode.{byte_of, transcode}
use tiny_base.Strings.Length.{string_len, len_cstring}

-- A 32-bit word stored by the machine, lowest byte first.
pub store_word : Mem → (local v : ℕ) → Mem
store_word m local v =
    write_bytes m local (byte_of v 0 ∷ byte_of v 1 ∷ byte_of v 2 ∷ byte_of v 3 ∷ [])

pub append_char_to_string : (local : ℕ) → Mem → (src : ℕ) → String → Bool × Buffer × Mem
append_char_to_string local m src dst =
    append_buffer_to_buffer (store_word m local (adjust_endianness src dst.enc))
      (buffer local (get_multibyte_char_size src dst.enc) 0) dst.buf

pub append_char_to_string_n_times :
    (local : ℕ) → Mem → (src count : ℕ) → String → Bool × Buffer × Mem
append_char_to_string_n_times local m src count dst =
    append_buffer_to_buffer_n_times (store_word m local (adjust_endianness src dst.enc))
      (buffer local (get_multibyte_char_size src dst.enc) 0) count dst.buf

pub append_data_to_string : Mem → (src src_size : ℕ) → String → Bool × Buffer × Mem
append_data_to_string m src src_size dst = append_data_to_buffer m src src_size dst.buf

-- `none` means here and below that the fuel ran out.
pub append_array_to_string : ℕ → Mem → (src : ℕ) → String → Option (Bool × Buffer × Mem)
append_array_to_string fuel m src dst =
    elim (string_len fuel m (record { buf = buffer src 0 0; enc = dst.enc }) len_cstring) [
      | none ↦ none
      | some nul_idx ↦ some (append_data_to_buffer m src nul_idx dst.buf)
    ]

pub append_string_to_string : ℕ → Mem → (src dst : String) → Option (Bool × Buffer × Mem)
append_string_to_string fuel m src dst =
    if enc_value src.enc == enc_value dst.enc
    then some (append_buffer_to_buffer m src.buf dst.buf)
    else transcode fuel m src dst

-- `for (Idx = 0; Idx < Count; Idx++) Transcode(Src, Dst);` over the rounds left
pub transcode_n_times : (rounds fuel : ℕ) → Mem → (src dst : String) → Option (Bool × Buffer × Mem)
transcode_n_times zero fuel m src dst = some (true, dst.buf, m)
transcode_n_times (suc rounds) fuel m src dst = elim (transcode fuel m src dst) [
  | none ↦ none
  | some (_, buf, m') ↦ transcode_n_times rounds fuel m' src (record dst { buf = buf })
]

pub append_string_to_string_n_times :
    ℕ → Mem → (src : String) (count : ℕ) (dst : String) → Option (Bool × Buffer × Mem)
append_string_to_string_n_times fuel m src count dst =
    if enc_value src.enc == enc_value dst.enc
    then some (append_buffer_to_buffer_n_times m src.buf count dst.buf)
    else transcode_n_times count fuel m src dst
