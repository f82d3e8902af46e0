-- ===== src/Encoding/Char/Reads.antt =====
-- What it means that a character in memory is read correctly.
use tiny_base.Base.{ℕ, ◌≡◌, length}
use tiny_base.Mem.{Mem}
use tiny_base.Encoding.{Encoding}
use tiny_base.Encoding.Char.{
  get_next_char, get_next_char_size, get_multibyte_char_size, adjust_endianness, read_bytes,
  encode_char,
}
use tiny_base.Encoding.Char.Spec.{encoded}

-- GetNextCharSize, GetNextChar and GetMultibyteCharSize agree on the character `c` at `p`.
pub record ReadsAs (m : Mem) (p : ℕ) (enc : Encoding) (c : ℕ) : Type 0 where
  pub next_size : get_next_char_size m p enc ≡ length (encoded enc c)
  pub next_char : get_next_char m p enc ≡ encode_char c enc
  pub char_size : get_multibyte_char_size (encode_char c enc) enc ≡ length (encoded enc c)

-- To see a character it is enough to know its size and the bytes read.
pub reads :
    (m : Mem) (p : ℕ) (enc : Encoding) (c n x : ℕ)
    → get_next_char_size m p enc ≡ n
    → read_bytes m p n ≡ x
    → adjust_endianness x enc ≡ encode_char c enc
    → get_next_char m p enc ≡ encode_char c enc
unfolding get_next_char
reads m p enc c n x e e' e'' = rw (e, e') e''
