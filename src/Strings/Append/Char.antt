-- ===== src/Strings/Append/Char.antt =====
-- AppendCharToString and AppendCharToStringNTimes.
use tiny_base.Base.{ℕ, ◌*◌, ◌^◌, ◌<◌, repeat, length}
use tiny_base.Mem.{Mem}
use tiny_base.Memory.{buffer, IsWritable}
use tiny_base.Memory.Edit.Spec.{FreeDisjoint, Appends}
use tiny_base.Memory.Edit.Laws.{append_buffer_to_buffer-Appends}
use tiny_base.Memory.Edit.Times.{append_buffer_to_buffer_n_times-Appends}
use tiny_base.Encoding.Char.{adjust_endianness, encode_char, get_multibyte_char_size}
use tiny_base.Encoding.Char.Spec.{encoded, CanEncode}
use tiny_base.Strings.{String}
use tiny_base.Strings.Append.{store_word, append_char_to_string, append_char_to_string_n_times}
use tiny_base.Strings.Append.Local.{bytes-local_char}
use tiny_base.Encoding.Char.Size.{get_multibyte_char_size-encode_char}

-- AppendCharToString of a character that the encoding of a writable string can express appends its
-- bytes by the standard and returns true if they fit, and otherwise returns false and leaves the
-- string as it is, in each of the six encodings. Memory is compared with what it is once the
-- parameter is stored.
pub append_char_to_string-Appends :
    (local : ℕ) (m : Mem) (c : ℕ) (dst : String)
    → IsWritable dst.buf
    → CanEncode dst.enc c
    → Appends
        (store_word m local (adjust_endianness (encode_char c dst.enc) dst.enc))
        dst.buf
        (encoded dst.enc c)
        (append_char_to_string local m (encode_char c dst.enc) dst)
unfolding append_char_to_string
append_char_to_string-Appends local m c dst w can =
    let m' = store_word m local (adjust_endianness (encode_char c dst.enc) dst.enc) in
    let src = buffer local (get_multibyte_char_size (encode_char c dst.enc) dst.enc) 0 in
    rw (← bytes-local_char m local dst.enc c can) (append_buffer_to_buffer-Appends m' src dst.buf w)

-- AppendCharToStringNTimes of such a character, with a count for which the bytes do not exceed a
-- word, appends it that often if all fit, and otherwise returns false and leaves the string as it
-- is. The parameter does not lie in the free part of the string.
pub append_char_to_string_n_times-Appends :
    (local : ℕ) (m : Mem) (c count : ℕ) (dst : String)
    → IsWritable dst.buf
    → CanEncode dst.enc c
    → length (encoded dst.enc c) * count < 2 ^ 64
    → FreeDisjoint local (length (encoded dst.enc c)) dst.buf
    → Appends
        (store_word m local (adjust_endianness (encode_char c dst.enc) dst.enc))
        dst.buf
        (repeat count (encoded dst.enc c))
        (append_char_to_string_n_times local m (encode_char c dst.enc) count dst)
unfolding append_char_to_string_n_times
append_char_to_string_n_times-Appends local m c count dst w can small apart =
    let m' = store_word m local (adjust_endianness (encode_char c dst.enc) dst.enc) in
    let src = buffer local (get_multibyte_char_size (encode_char c dst.enc) dst.enc) 0 in
    let size = get_multibyte_char_size-encode_char dst.enc c can in
    rw (← bytes-local_char m local dst.enc c can) (
      append_buffer_to_buffer_n_times-Appends m' src count dst.buf w (rw size apart)
        (rw size small))
