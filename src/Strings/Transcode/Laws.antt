-- ===== src/Strings/Transcode/Laws.antt =====
-- Transcode writes the same text in the encoding of the destination.
use tiny_base.Base.{
  ℕ, zero, suc, ◌+◌, ◌≤◌, ◌<◌, ◌≡◌, inl, inr, ◌^◌, refl, sym, ap, ◌∙◌, Bool, true, false, some,
  arith, List, [], ◌∷◌, length, length-append, le→ltb,
}
use tiny_base.Mem.{Mem}
use tiny_base.Mem.Laws.{SameOutside-inside, length-bytes}
use tiny_base.Mem.Write.{write_bytes, write_bytes-SameOutside}
use tiny_base.Memory.{Buffer, contents, IsReadable, IsWritable}
use tiny_base.Memory.Edit.Laws.{Appended-IsWritable}
use tiny_base.Memory.Edit.Times.{Appended-nil}
use tiny_base.Memory.Edit.Spec.{FreeDisjoint}
use native.Mathlib.Decide.{dec_le}
use tiny_base.Encoding.{Encoding, ascii, utf8, utf16le, utf16be, utf32le, utf32be}
use tiny_base.Encoding.Char.Spec.{encoded}
use tiny_base.Encoding.Char.Bytes.{Holds, Holds-bytes, Holds-append, Holds-same}
use tiny_base.Encoding.Char.Size.{length-encoded-le, length-encoded_pos}
use tiny_base.Encoding.Char.Reads.{ReadsAs}
use tiny_base.Encoding.Char.Laws.{encoded-ReadsAs}
use tiny_base.Strings.{String, encoded_all}
use tiny_base.Strings.Transcode.{
  transcode_loop, transcode, transcode_plain, transcode_utf16be, transcode_utf32be,
}
use tiny_base.Strings.Transcode.Spec.{AllCan, Ended, Ended-after}
use tiny_base.Strings.Transcode.Stores.{
  Stores, plain-Stores_ascii, plain-Stores_utf8, plain-Stores_utf16le, utf16be-Stores,
  plain-Stores_utf32le, utf32be-Stores,
}
use tiny_base.Strings.Transcode.Round.{
  Appended-write_bytes, Disjoint-part, FreeDisjoint-later, round_fits, round_full,
}

module _ (size_of : ℕ → ℕ) (put : Mem → (dst encoded size : ℕ) → Mem) (src : String)
    (dst_enc : Encoding) (start : ℕ) (st : Stores dst_enc size_of put) where
  -- All rounds: `idx` has come to the characters `cs`.
  loop-Ended :
      (fuel : ℕ) (m : Mem) (idx : ℕ) (dst : Buffer) (cs : List ℕ)
      → length cs < fuel
      → AllCan src.enc cs
      → AllCan dst_enc cs
      → Holds m (src.base + idx) (encoded_all src.enc cs)
      → idx + length (encoded_all src.enc cs) ≡ src.write_cur
      → src.write_cur < 2 ^ 64
      → IsWritable dst
      → dst.size + 4 < 2 ^ 64
      → FreeDisjoint src.base src.write_cur dst
      → (r : Bool × Buffer × Mem) × (transcode_loop size_of put src dst_enc start fuel m idx dst
          ≡ some r)
        × Ended start m dst (encoded_all dst_enc cs) r
  loop-Ended zero m idx dst cs enough can can' holds at word w room apart = elim enough [ ]
  loop-Ended (suc fuel) m idx dst [] enough can can' holds at word w room apart =
      ((true, dst, m), ended, inl (Appended-nil m dst w))
    where
      ended :
          transcode_loop size_of put src dst_enc start (suc fuel) m idx dst ≡ some (true, dst, m)
      ended = unfold transcode_loop in rw (le→ltb idx src.write_cur (omega arith))
  loop-Ended (suc fuel) m idx dst (c ∷ cs) enough can can' holds at word w room apart =
      elim (dec_le (dst.write_cur + length (encoded dst_enc c)) dst.size) [
        | yes fits ↦
            let a = Appended-write_bytes m dst dst_enc c w can'.0 fits in
            let g = write_bytes m (dst.base + dst.write_cur) (encoded dst_enc c) in
            let mid : Buffer = record dst {
              write_cur = dst.write_cur + length (encoded dst_enc c);
            } in
            let (r, runs, e) =
              loop-Ended fuel g (idx + length (encoded src.enc c)) mid cs (omega arith) can.1 can'.1
                (rest fits) (omega (arith, len)) word (Appended-IsWritable w a) room
                (FreeDisjoint-later src.base src.write_cur dst (length (encoded dst_enc c)) fits
                  apart) in
            (
              r,
              round_fits size_of put src dst_enc start st fuel m idx c dst reads can.0 can'.0
                    (omega (arith, len, length-encoded_pos src.enc c)) word w (omega (arith, len))
                    fits
                  ∙ runs,
              Ended-after (encoded dst_enc c) (encoded_all dst_enc cs) start a e,
            )
        | no full ↦ (
          (false, record dst { write_cur = start }, m),
          round_full size_of put src dst_enc start st fuel m idx c dst reads can.0 can'.0
              (omega (arith, len, length-encoded_pos src.enc c)) word w (omega (arith, len))
              (omega arith) (omega (arith, length-encoded-le dst_enc c)),
          inr (record {
            full = omega (arith, length-append (encoded dst_enc c) (encoded_all dst_enc cs));
            failure = refl;
            same_buffer = refl;
            frame = λ x _. refl;
          }),
        )
      ]
    where
      len :
          length (encoded_all src.enc (c ∷ cs))
          ≡ length (encoded src.enc c) + length (encoded_all src.enc cs)
      len = length-append (encoded src.enc c) (encoded_all src.enc cs)

      parts :
          Holds m (src.base + idx) (encoded src.enc c)
          × Holds m (src.base + idx + length (encoded src.enc c)) (encoded_all src.enc cs)
      parts = Holds-append m (src.base + idx) (encoded src.enc c) (encoded_all src.enc cs) holds

      reads : ReadsAs m (src.base + idx) src.enc c
      reads = encoded-ReadsAs m (src.base + idx) src.enc c can.0 parts.0

      rest :
          dst.write_cur + length (encoded dst_enc c) ≤ dst.size
          → Holds
              (write_bytes m (dst.base + dst.write_cur) (encoded dst_enc c))
              (src.base + (idx + length (encoded src.enc c)))
              (encoded_all src.enc cs)
      rest fits =
          let start = dst.base + dst.write_cur in
          let xs = encoded dst_enc c in
          let p = src.base + idx + length (encoded src.enc c) in
          let q = length (encoded_all src.enc cs) in
          let e : src.base + (idx + length (encoded src.enc c)) ≡ p = omega arith in
          rw e (
            Holds-same m (write_bytes m start xs) p (encoded_all src.enc cs)
              (SameOutside-inside start (length xs) p q (write_bytes-SameOutside m start xs) (
                Disjoint-part src.base src.write_cur dst (length xs) fits p q (omega arith)
                  (omega (arith, len)) apart))
              parts.1)

-- The source holds the text `cs` in its encoding, and both encodings can express it.
pub record HoldsText (m : Mem) (src : String) (dst_enc : Encoding) (cs : List ℕ) : Type 0 where
  pub text : contents m src.buf ≡ encoded_all src.enc cs
  pub expressible : AllCan src.enc cs
  pub expressible_there : AllCan dst_enc cs

module _ (fuel : ℕ) (m : Mem) (src : String) (buf : Buffer) (cs : List ℕ)
    (enough : length cs < fuel) (readable : IsReadable src.buf) (w : IsWritable buf)
    (room : buf.size + 4 < 2 ^ 64) (apart : FreeDisjoint src.base src.write_cur buf) where
  from_start :
      (size_of : ℕ → ℕ) (put : Mem → (dst encoded size : ℕ) → Mem) (enc : Encoding)
      → Stores enc size_of put
      → HoldsText m src enc cs
      → (r : Bool × Buffer × Mem) × (transcode_loop size_of put src enc buf.write_cur fuel m 0 buf
          ≡ some r)
        × Ended buf.write_cur m buf (encoded_all enc cs) r
  from_start size_of put enc st h =
      let len : src.write_cur ≡ length (encoded_all src.enc cs) =
        sym (length-bytes m src.base src.write_cur) ∙ ap length h.text in
      let e : src.base + 0 ≡ src.base = omega arith in
      loop-Ended size_of put src enc buf.write_cur st fuel m 0 buf cs enough h.expressible
        h.expressible_there
        (rw e (Holds-bytes m src.base (encoded_all src.enc cs) (rw (← len) h.text)))
        (omega (arith, len)) (omega arith) w room apart

  by_encoding-Ended :
      (enc : Encoding)
      → HoldsText m src enc cs
      → (r : Bool × Buffer × Mem) × (transcode fuel m src (record { buf = buf; enc = enc })
          ≡ some r)
        × Ended buf.write_cur m buf (encoded_all enc cs) r
  unfolding transcode transcode_plain transcode_utf16be transcode_utf32be
  by_encoding-Ended ascii h = from_start _ _ ascii plain-Stores_ascii h
  by_encoding-Ended utf8 h = from_start _ _ utf8 plain-Stores_utf8 h
  by_encoding-Ended utf16le h = from_start _ _ utf16le plain-Stores_utf16le h
  by_encoding-Ended utf16be h = from_start _ _ utf16be utf16be-Stores h
  by_encoding-Ended utf32le h = from_start _ _ utf32le plain-Stores_utf32le h
  by_encoding-Ended utf32be h = from_start _ _ utf32be utf32be-Stores h

-- Transcode of a readable source that holds a text, into a writable destination whose size is not
-- within 4 of the largest word and whose free part does not overlap the source, ends within one
-- round more than there are characters. For every pair of encodings that can express the text, it
-- appends the text in the encoding of the destination and returns true if that fits; if not, it
-- returns false with the cursor where it was, and only free bytes of the destination may change.
pub transcode-Ended :
    (fuel : ℕ) (m : Mem) (src dst : String) (cs : List ℕ)
    → length cs < fuel
    → IsReadable src.buf
    → IsWritable dst.buf
    → dst.size + 4 < 2 ^ 64
    → FreeDisjoint src.base src.write_cur dst.buf
    → HoldsText m src dst.enc cs
    → (r : Bool × Buffer × Mem) × (transcode fuel m src dst ≡ some r)
      × Ended dst.write_cur m dst.buf (encoded_all dst.enc cs) r
transcode-Ended fuel m src dst cs enough readable w room apart h =
    by_encoding-Ended fuel m src dst.buf cs enough readable w room apart dst.enc h
