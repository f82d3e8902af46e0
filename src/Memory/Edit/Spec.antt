-- ===== src/Memory/Edit/Spec.antt =====
-- What an operation that appends promises: a buffer is a list of bytes of bounded length.
use tiny_base.Base.{ℕ, ◌+◌, ◌-◌, ◌<◌, ◌≤◌, ◌≡◌, ◌⊎◌, Bool, true, false, List, ◌++◌, length}
use tiny_base.Mem.{Mem, SameOutside, Disjoint}
use tiny_base.Memory.{Buffer, contents}

-- The free part of a buffer, where an append writes.
abbrev pub FreeDisjoint : (src n : ℕ) → Buffer → Type 0
FreeDisjoint src n dst = Disjoint src n (dst.base + dst.write_cur) (dst.size - dst.write_cur)

module _ (m : Mem) (dst : Buffer) (added : List ℕ) where
  -- The bytes fit, and were written behind the contents; nothing else changed.
  pub record Appended (result : Bool × Buffer × Mem) : Type 0 where
    pub fits : dst.write_cur + length added ≤ dst.size
    pub success : result.0 ≡ true
    pub same_base : result.1.base ≡ dst.base
    pub same_size : result.1.size ≡ dst.size
    pub cursor : result.1.write_cur ≡ dst.write_cur + length added
    pub value : contents result.2 result.1 ≡ contents m dst ++ added
    pub frame : SameOutside (dst.base + dst.write_cur) (length added) m result.2

  -- The bytes do not fit, and nothing changed.
  pub record Refused (result : Bool × Buffer × Mem) : Type 0 where
    pub full : dst.size < dst.write_cur + length added
    pub failure : result.0 ≡ false
    pub same_buffer : result.1 ≡ dst
    pub same_mem : result.2 ≡ m

  abbrev pub Appends : Bool × Buffer × Mem → Type 0
  Appends result = Appended result ⊎ Refused result
