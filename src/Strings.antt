-- ===== src/Strings.antt =====
-- src/tinybase-strings.h: a string is a buffer with the encoding of its contents. The C union gives
-- the fields of the buffer their names in the string too. No function changes the encoding of a
-- string, so one that changes `*Dst` returns its new buffer.
pub mod Walk
pub mod Length
pub mod Class
pub mod Append
pub mod Transcode
pub mod Number
pub mod Print
pub mod Chars
pub mod Query
use tiny_base.Base.{ℕ, List, [], ◌∷◌, ◌++◌}
use tiny_base.Memory.{Buffer}
use tiny_base.Encoding.{Encoding}
use tiny_base.Encoding.Char.Spec.{encoded}

pub record String : Type 0 where
  pub buf : Buffer
  pub open buf use *
  pub enc : Encoding

-- The bytes of a text, by the standard.
abbrev pub encoded_all : Encoding → List ℕ → List ℕ
encoded_all enc [] = []
encoded_all enc (c ∷ cs) = encoded enc c ++ encoded_all enc cs
