-- ===== src/Strings/Append/Text.antt =====
-- AppendStringToString, with and without a change of encoding.
use tiny_base.Base.{
  ℕ, ◌+◌, ◌^◌, ◌<◌, ◌≡◌, refl, ap, ◌∙◌, Bool, Bool-cases, inl, inr, some, List, length, ◌==◌,
  ==_iff,
}
use tiny_base.Mem.{Mem}
use tiny_base.Memory.{Buffer, contents, IsReadable, IsWritable}
use tiny_base.Memory.Edit.{append_buffer_to_buffer}
use tiny_base.Memory.Edit.Spec.{Appends}
use tiny_base.Memory.Edit.Laws.{append_buffer_to_buffer-Appends}
use tiny_base.Memory.Edit.Spec.{FreeDisjoint}
use tiny_base.Encoding.{Encoding, enc_value}
use tiny_base.Strings.{String, encoded_all}
use tiny_base.Strings.Transcode.Spec.{Ended}
use tiny_base.Strings.Transcode.Laws.{HoldsText, transcode-Ended}
use tiny_base.Strings.Query.Equal.{enc_value_injective}
use tiny_base.Strings.Append.{append_string_to_string}

-- A refusal is an end in which nothing was changed.
Refused-Ended :
    (m : Mem) (dst : Buffer) (added : List ℕ) (r : Bool × Buffer × Mem)
    → Appends m dst added r
    → Ended dst.write_cur m dst added r
Refused-Ended m dst added r (inl a) = inl a
Refused-Ended m dst added r (inr b) = inr (record {
  full = b.full;
  failure = b.failure;
  same_buffer = b.same_buffer;
  frame = λ x out. ap (λ g. g x) b.same_mem;
})

-- With one encoding the bytes are appended.
pub append_string_to_string-same :
    (fuel : ℕ) (m : Mem) (src dst : Buffer) (enc : Encoding)
    → append_string_to_string fuel m
        (record { buf = src; enc = enc })
        (record { buf = dst; enc = enc })
      ≡ some (append_buffer_to_buffer m src dst)
unfolding append_string_to_string
append_string_to_string-same fuel m src dst enc =
    rw ((==_iff (enc_value enc) (enc_value enc)).1 refl) refl

-- AppendStringToString appends the text of the source in the encoding of the destination, whether
-- or not the two encodings are the same, and returns true if it fits; if not, it returns false with
-- the cursor where it was, and only free bytes of the destination may change. The source is
-- readable, the destination writable with a size that is not within 4 of the largest word, its free
-- part does not overlap the source, and both encodings can express the text. It ends within one
-- round more than the text has characters.
pub append_string_to_string-Ended :
    (fuel : ℕ) (m : Mem) (src dst : String) (cs : List ℕ)
    → length cs < fuel
    → IsReadable src.buf
    → IsWritable dst.buf
    → dst.size + 4 < 2 ^ 64
    → FreeDisjoint src.base src.write_cur dst.buf
    → HoldsText m src dst.enc cs
    → (r : Bool × Buffer × Mem) × (append_string_to_string fuel m src dst ≡ some r)
      × Ended dst.write_cur m dst.buf (encoded_all dst.enc cs) r
unfolding append_string_to_string
append_string_to_string-Ended fuel m src dst cs enough readable w room apart h =
    elim (Bool-cases (enc_value src.enc == enc_value dst.enc)) [
      | inl t ↦
          let same =
            enc_value_injective src.enc dst.enc
              ((==_iff (enc_value src.enc) (enc_value dst.enc)).0 t) in
          let text : contents m src.buf ≡ encoded_all dst.enc cs =
            h.text ∙ ap (λ e. encoded_all e cs) same in
          (
            append_buffer_to_buffer m src.buf dst.buf,
            rw t refl,
            rw (← text) (
                Refused-Ended m dst.buf (contents m src.buf)
                  (append_buffer_to_buffer m src.buf dst.buf)
                  (append_buffer_to_buffer-Appends m src.buf dst.buf w)),
          )
      | inr f ↦
          let (r, runs, e) = transcode-Ended fuel m src dst cs enough readable w room apart h in
          (r, rw f runs, e)
    ]
