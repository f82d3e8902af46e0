-- ===== src/Strings/Transcode/Round.antt =====
-- One round of the loops of Transcode: it writes the character and goes on, or gives up.
use tiny_base.Base.{
  ℕ, suc, ◌+◌, ◌≤◌, ◌<◌, ◌≡◌, inl, inr, ◌^◌, refl, ap₂, ◌∙◌, true, false, some, arith, ◌++◌, length,
  lt→ltb, le→leb, lt→leb,
}
use tiny_base.Base.Word.{add_usz}
use tiny_base.Mem.{Mem, Disjoint}
use tiny_base.Mem.Laws.{bytes-append, bytes-outside}
use tiny_base.Mem.Write.{write_bytes, write_bytes-SameOutside, bytes-write_bytes}
use tiny_base.Memory.{Buffer, IsWritable}
use tiny_base.Memory.Edit.Spec.{Appended}
use tiny_base.Memory.Edit.Spec.{FreeDisjoint}
use tiny_base.Encoding.{Encoding}
use tiny_base.Encoding.Char.Spec.{encoded, CanEncode}
use tiny_base.Encoding.Char.Reads.{ReadsAs}
use tiny_base.Encoding.Char.Laws.{decode_char-encode_char}
use tiny_base.Strings.{String}
use tiny_base.Strings.Transcode.{transcode_loop}
use tiny_base.Strings.Transcode.Stores.{Stores, AllBytes-encoded}

pub Appended-write_bytes :
    (m : Mem) (dst : Buffer) (enc : Encoding) (c : ℕ)
    → IsWritable dst
    → CanEncode enc c
    → dst.write_cur + length (encoded enc c) ≤ dst.size
    → Appended m dst (encoded enc c) (
      true,
      record dst { write_cur = dst.write_cur + length (encoded enc c) },
      write_bytes m (dst.base + dst.write_cur) (encoded enc c),
    )
Appended-write_bytes m dst enc c w can fits =
    let start = dst.base + dst.write_cur in
    let xs = encoded enc c in
    let m' = write_bytes m start xs in
    let out = write_bytes-SameOutside m start xs in
    record {
      fits = fits;
      success = refl;
      same_base = refl;
      same_size = refl;
      cursor = refl;
      value =
          bytes-append m' dst.base dst.write_cur (length xs)
          ∙ ap₂ ◌++◌
              (bytes-outside start (length xs) dst.base dst.write_cur out (inr (omega arith)))
              (bytes-write_bytes m start xs (AllBytes-encoded enc c can));
      frame = out;
    }

-- A part of the source is apart from the bytes that a round writes, and the whole of it from the
-- free part that is left.
module _ (s n : ℕ) (dst : Buffer) (k : ℕ) (fits : dst.write_cur + k ≤ dst.size) where
  pub Disjoint-part :
      (p q : ℕ)
      → s ≤ p
      → p + q ≤ s + n
      → FreeDisjoint s n dst
      → Disjoint (dst.base + dst.write_cur) k p q
  Disjoint-part p q lo hi (inl l) = inr (omega arith)
  Disjoint-part p q lo hi (inr h) = inl (omega arith)

  pub FreeDisjoint-later :
      FreeDisjoint s n dst → FreeDisjoint s n (record dst { write_cur = dst.write_cur + k })
  FreeDisjoint-later (inl l) = inl (omega arith)
  FreeDisjoint-later (inr h) = inr (omega arith)

module _ (size_of : ℕ → ℕ) (put : Mem → (dst encoded size : ℕ) → Mem) (src : String)
    (dst_enc : Encoding) (start : ℕ) (st : Stores dst_enc size_of put) where
  -- One round at a character that fits, and at one that does not.
  module _ (fuel : ℕ) (m : Mem) (idx c : ℕ) (dst : Buffer)
      (r : ReadsAs m (src.base + idx) src.enc c) (can : CanEncode src.enc c)
      (can' : CanEncode dst_enc c) (more : idx < src.write_cur) (word : src.write_cur < 2 ^ 64)
      (w : IsWritable dst) (inside : idx + length (encoded src.enc c) ≤ src.write_cur) where
    abbrev n : ℕ
    n = length (encoded dst_enc c)

    pub round_fits :
        dst.write_cur + n ≤ dst.size
        → transcode_loop size_of put src dst_enc start (suc fuel) m idx dst
          ≡ transcode_loop size_of put src dst_enc start fuel
              (write_bytes m (dst.base + dst.write_cur) (encoded dst_enc c))
              (idx + length (encoded src.enc c))
              (record dst { write_cur = dst.write_cur + n })
    unfolding transcode_loop
    round_fits fits =
        let t = lt→ltb idx src.write_cur more in
        let decoded = decode_char-encode_char src.enc c can in
        let e : add_usz dst.write_cur n ≡ dst.write_cur + n = omega arith in
        let e' : add_usz idx (length (encoded src.enc c)) ≡ idx + length (encoded src.enc c) =
          omega arith in
        let t' = le→leb (dst.write_cur + n) dst.size fits in
        rw (
          r.next_char,
          r.char_size,
          decoded,
          st.size c can',
          st.stored m (dst.base + dst.write_cur) c can',
          t,
          e,
          e',
          t',
        )

    pub round_full :
        dst.size < dst.write_cur + n
        → dst.write_cur + n < 2 ^ 64
        → transcode_loop size_of put src dst_enc start (suc fuel) m idx dst
          ≡ some (false, record dst { write_cur = start }, m)
    unfolding transcode_loop
    round_full full small =
        let t = lt→ltb idx src.write_cur more in
        let decoded = decode_char-encode_char src.enc c can in
        let e : add_usz dst.write_cur n ≡ dst.write_cur + n = omega arith in
        let t' = lt→leb (dst.write_cur + n) dst.size full in
        rw (r.next_char, decoded, st.size c can', t, e, t')
