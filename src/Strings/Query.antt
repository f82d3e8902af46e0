-- ===== src/Strings/Query.antt =====
-- Queries of strings: the query section of src/tinybase-strings.c, over the queries of buffers.
pub mod Equal
use tiny_base.Base.{ℕ, Bool, ◌&&◌, ◌==◌, if◌then◌else◌}
use tiny_base.Mem.{Mem}
use tiny_base.Memory.{Buffer, invalid_idx}
use tiny_base.Memory.Search.{Kernels, buffer_in_buffer}
use tiny_base.Memory.Compare.{compare_buffers, equal_buffers}
use tiny_base.Encoding.{enc_value}
use tiny_base.Strings.{String}

pub string_in_string : Kernels → Mem → (needle haystack : String) → (flags : ℕ) → ℕ
string_in_string k m needle haystack flags =
    if enc_value needle.enc == enc_value haystack.enc
    then buffer_in_buffer k m needle.buf haystack.buf flags
    else invalid_idx

pub compare_strings : Mem → (a b : String) → (amount flag : ℕ) → ℕ
compare_strings m a b amount flag =
    if enc_value a.enc == enc_value b.enc
    then compare_buffers m a.buf b.buf amount flag
    else invalid_idx

pub equal_strings : Mem → (a b : String) → Bool
equal_strings m a b = (enc_value a.enc == enc_value b.enc) && equal_buffers m a.buf b.buf
