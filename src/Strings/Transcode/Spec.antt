-- ===== src/Strings/Transcode/Spec.antt =====
-- What Transcode promises where the text fits, and where it does not.
use tiny_base.Base.{
  ℕ, ◌+◌, ◌-◌, ◌<◌, ◌≡◌, ◌⊎◌, inl, inr, ◌∙◌, Bool, true, false, arith, List, [], ◌∷◌, ◌++◌, length,
  length-append,
}
use tiny_base.Mem.{Mem, SameOutside}
use tiny_base.Memory.{Buffer}
use tiny_base.Memory.Edit.Spec.{Appended}
use tiny_base.Memory.Edit.Laws.{Appended-trans}
use tiny_base.Encoding.{Encoding}
use tiny_base.Encoding.Char.Spec.{CanEncode}

-- The bytes do not fit: the cursor is back at `start`, and only free bytes may have changed.
pub record Abandoned (start : ℕ) (m : Mem) (dst : Buffer) (added : List ℕ) (r : Bool × Buffer × Mem)
    : Type 0 where
  pub full : dst.size < dst.write_cur + length added
  pub failure : r.0 ≡ false
  pub same_buffer : r.1 ≡ record dst { write_cur = start }
  pub frame : SameOutside (dst.base + dst.write_cur) (dst.size - dst.write_cur) m r.2

-- Every code point of the text can be expressed in both encodings.
abbrev pub AllCan : Encoding → List ℕ → Type 0
AllCan enc [] = Unit {0}
AllCan enc (c ∷ cs) = CanEncode enc c × AllCan enc cs

-- The two ways in which a transcoding ends.
abbrev pub Ended : ℕ → Mem → Buffer → List ℕ → Bool × Buffer × Mem → Type 0
Ended start m dst added r = Appended m dst added r ⊎ Abandoned start m dst added r

module _ {m g : Mem} {dst mid : Buffer} (xs ys : List ℕ) {r : Bool × Buffer × Mem} (start : ℕ)
    (a : Appended m dst xs (true, mid, g)) where
  Abandoned-frame :
      Abandoned start g mid ys r
      → SameOutside (dst.base + dst.write_cur) (dst.size - dst.write_cur) m r.2
  Abandoned-frame b x (inl l) =
      b.frame x (inl (omega (arith, a.same_base, a.cursor))) ∙ a.frame x (inl l)
  Abandoned-frame b x (inr h) =
      b.frame x (inr (omega (arith, a.same_base, a.cursor, a.same_size, a.fits)))
      ∙ a.frame x (inr (omega (arith, a.fits)))

  -- An append and then the end of the rest is the end of the whole.
  pub Ended-after : Ended start g mid ys r → Ended start m dst (xs ++ ys) r
  Ended-after (inl b) = inl (Appended-trans xs ys a b)
  Ended-after (inr b) = inr (record {
    full = omega (arith, length-append xs ys, a.cursor, a.same_size, b.full);
    failure = b.failure;
    same_buffer = ground arith;
    frame = Abandoned-frame b;
  })
