-- ===== src/Strings/Transcode.antt =====
-- Transcode: `_Transcode` of src/tinybase-strings.c, `_TranscodeUTF16BE` and `_TranscodeUTF32BE` of
-- src/tinybase-encoding.c. The three are the same loop but for the size of an encoded character and
-- the order in which its bytes are stored.
pub mod Spec
pub mod Laws
pub mod Stores
pub mod Round
use tiny_base.Base.{
  ℕ, zero, suc, ◌+◌, ◌*◌, ◌/◌, ◌%◌, ◌^◌, Bool, true, false, Option, none, some, List, [], ◌∷◌, ltb,
  leb, ◌==◌, if◌then◌else◌,
}
use tiny_base.Base.Word.{add_usz}
use tiny_base.Mem.{Mem}
use tiny_base.Mem.Write.{write_bytes}
use tiny_base.Memory.{Buffer}
use tiny_base.Encoding.{Encoding, ascii, utf8, utf16le, utf16be, utf32le, utf32be}
use tiny_base.Encoding.Char.{get_next_char, get_multibyte_char_size, decode_char, encode_char}
use tiny_base.Strings.{String}

-- `((u8*)&x)[i]`, on a little-endian machine
abbrev pub byte_of : ℕ → ℕ → ℕ
byte_of x i = x / 2 ^ (8 * i) % 256

pub store_plain : Mem → (dst encoded size : ℕ) → Mem
store_plain m d x n =
    if n == 1
    then write_bytes m d (byte_of x 0 ∷ [])
    else if n == 2
    then write_bytes m d (byte_of x 0 ∷ byte_of x 1 ∷ [])
    else if n == 3
    then write_bytes m d (byte_of x 0 ∷ byte_of x 1 ∷ byte_of x 2 ∷ [])
    else if n == 4
    then write_bytes m d (byte_of x 0 ∷ byte_of x 1 ∷ byte_of x 2 ∷ byte_of x 3 ∷ [])
    else m

pub store_utf16be : Mem → (dst encoded size : ℕ) → Mem
store_utf16be m d x n =
    if n == 2
    then write_bytes m d (byte_of x 1 ∷ byte_of x 0 ∷ [])
    else if n == 4
    then write_bytes m d (byte_of x 1 ∷ byte_of x 0 ∷ byte_of x 3 ∷ byte_of x 2 ∷ [])
    else m

pub store_utf32be : Mem → (dst encoded size : ℕ) → Mem
store_utf32be m d x n = write_bytes m d (byte_of x 3 ∷ byte_of x 2 ∷ byte_of x 1 ∷ byte_of x 0 ∷ [])

-- The loop, with `size_of` for `EncodedSize` and `put` for the stores. `none` means that the fuel
-- ran out.
module _ (size_of : ℕ → ℕ) (put : Mem → (dst encoded size : ℕ) → Mem) (src : String)
    (dst_enc : Encoding) (start_write_cur : ℕ) where
  pub transcode_loop : ℕ → Mem → (src_idx : ℕ) → Buffer → Option (Bool × Buffer × Mem)
  transcode_loop zero m src_idx dst = none
  transcode_loop (suc fuel) m src_idx dst =
      let char = get_next_char m (src.base + src_idx) src.enc in
      let char_size = get_multibyte_char_size char src.enc in
      let encoded = encode_char (decode_char char src.enc) dst_enc in
      let encoded_size = size_of encoded in
      let rest =
        transcode_loop fuel (put m (dst.base + dst.write_cur) encoded encoded_size)
          (add_usz src_idx char_size)
          (record dst { write_cur = add_usz dst.write_cur encoded_size }) in
      if ltb src_idx src.write_cur
      then if leb (add_usz dst.write_cur encoded_size) dst.size
        then rest
        else some (false, record dst { write_cur = start_write_cur }, m)
      else some (true, dst, m)

pub transcode_plain : ℕ → Mem → (src dst : String) → Option (Bool × Buffer × Mem)
transcode_plain fuel m src dst =
    transcode_loop (λ x. get_multibyte_char_size x dst.enc) store_plain src dst.enc dst.write_cur
      fuel m 0 dst.buf

pub transcode_utf16be : ℕ → Mem → (src dst : String) → Option (Bool × Buffer × Mem)
transcode_utf16be fuel m src dst =
    transcode_loop (λ x. get_multibyte_char_size x dst.enc) store_utf16be src dst.enc dst.write_cur
      fuel m 0 dst.buf

pub transcode_utf32be : ℕ → Mem → (src dst : String) → Option (Bool × Buffer × Mem)
transcode_utf32be fuel m src dst =
    transcode_loop (λ x. 4) store_utf32be src dst.enc dst.write_cur fuel m 0 dst.buf

-- The dispatch on the encoding of the destination.
by_encoding : Encoding → ℕ → Mem → (src dst : String) → Option (Bool × Buffer × Mem)
by_encoding utf16be fuel m src dst = transcode_utf16be fuel m src dst
by_encoding utf32be fuel m src dst = transcode_utf32be fuel m src dst
by_encoding _ fuel m src dst = transcode_plain fuel m src dst

pub transcode : ℕ → Mem → (src dst : String) → Option (Bool × Buffer × Mem)
unfolding by_encoding
transcode fuel m src dst = by_encoding dst.enc fuel m src dst
