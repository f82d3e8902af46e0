-- ===== src/Strings/Query/Equal.antt =====
-- EqualStrings on texts.
use tiny_base.Base.{
  ℕ, ◌+◌, ◌≡◌, ◌↔◌, refl, sym, ap, ap₂, ◌∙◌, arith, Bool, true, false, List, [], ◌∷◌, length,
  length-append, ◌&&◌, ◌==◌, ==_iff, if◌then◌else◌,
}
use mathlib.Core.Bool.{false≢true}
use tiny_base.Mem.{Mem}
use tiny_base.Mem.Laws.{length-bytes}
use tiny_base.Memory.{contents}
use tiny_base.Memory.Compare.{equal_buffers}
use tiny_base.Memory.Compare.Laws.{equal_buffers_iff}
use tiny_base.Encoding.{Encoding, ascii, utf8, utf16le, utf16be, utf32le, utf32be, enc_value}
use tiny_base.Encoding.Char.{encode_char, decode_char}
use tiny_base.Encoding.Char.Spec.{encoded}
use tiny_base.Encoding.Char.Bytes.{Holds, Holds-bytes, Holds-append}
use tiny_base.Encoding.Char.Size.{length-encoded_pos}
use tiny_base.Encoding.Char.Laws.{encoded-ReadsAs, decode_char-encode_char}
use tiny_base.Strings.{String, encoded_all}
use tiny_base.Strings.Transcode.Spec.{AllCan}
use tiny_base.Strings.Walk.{Shows}
use tiny_base.Strings.Query.{equal_strings}

-- The bytes in memory determine the text.
same_text :
    (m : Mem) (enc : Encoding) (p : ℕ) (cs ds : List ℕ)
    → AllCan enc cs
    → AllCan enc ds
    → Holds m p (encoded_all enc cs)
    → Holds m p (encoded_all enc ds)
    → length (encoded_all enc cs) ≡ length (encoded_all enc ds)
    → cs ≡ ds
same_text m enc p [] [] can can' h h' e = refl
same_text m enc p [] (d ∷ ds) can can' h h' e =
    absurd
      (omega (arith, length-append (encoded enc d) (encoded_all enc ds), length-encoded_pos enc d))
same_text m enc p (c ∷ cs) [] can can' h h' e =
    absurd
      (omega (arith, length-append (encoded enc c) (encoded_all enc cs), length-encoded_pos enc c))
same_text m enc p (c ∷ cs) (d ∷ ds) can can' h h' e =
    let parts = Holds-append m p (encoded enc c) (encoded_all enc cs) h in
    let parts' = Holds-append m p (encoded enc d) (encoded_all enc ds) h' in
    let reads = encoded-ReadsAs m p enc c can.0 parts.0 in
    let reads' = encoded-ReadsAs m p enc d can'.0 parts'.0 in
    let code : encode_char c enc ≡ encode_char d enc = sym reads.next_char ∙ reads'.next_char in
    let first : c ≡ d =
      sym (decode_char-encode_char enc c can.0)
      ∙ ap (λ x. decode_char x enc) code
      ∙ decode_char-encode_char enc d can'.0 in
    let n : length (encoded enc c) ≡ length (encoded enc d) =
      ap (λ x. length (encoded enc x)) first in
    ap₂ ◌∷◌ first (
      same_text m enc (p + length (encoded enc c)) cs ds can.1 can'.1 parts.1 (rw n parts'.1) (
        omega (
          arith,
          n,
          length-append (encoded enc c) (encoded_all enc cs),
          length-append (encoded enc d) (encoded_all enc ds),
        )))

of_value : ℕ → Encoding
of_value n =
    if n == 1
    then ascii
    else if n == 2
    then utf8
    else if n == 3
    then utf16le
    else if n == 4
    then utf16be
    else if n == 5
    then utf32le
    else utf32be

of_value-enc_value : (a : Encoding) → of_value (enc_value a) ≡ a
unfolding of_value
of_value-enc_value ascii = refl
of_value-enc_value utf8 = refl
of_value-enc_value utf16le = refl
of_value-enc_value utf16be = refl
of_value-enc_value utf32le = refl
of_value-enc_value utf32be = refl

pub enc_value_injective : (a b : Encoding) → enc_value a ≡ enc_value b → a ≡ b
enc_value_injective a b e = sym (of_value-enc_value a) ∙ ap of_value e ∙ of_value-enc_value b

both_true : (x y : Bool) → (x && y) ≡ true → (x ≡ true) × (y ≡ true)
both_true true y e = (refl, e)
both_true false y e = absurd (false≢true e)

module _ (m : Mem) (a b : String) (cs ds : List ℕ) (sa : Shows m a cs) (sb : Shows m b ds) where
  same_contents : a.enc ≡ b.enc → contents m a.buf ≡ contents m b.buf → cs ≡ ds
  same_contents same e =
      let other : contents m a.buf ≡ encoded_all a.enc ds =
        e ∙ sb.text ∙ ap (λ x. encoded_all x ds) (sym same) in
      let n : length (encoded_all a.enc cs) ≡ a.write_cur =
        sym (ap length sa.text) ∙ length-bytes m a.base a.write_cur in
      let n' : length (encoded_all a.enc ds) ≡ a.write_cur =
        sym (ap length other) ∙ length-bytes m a.base a.write_cur in
      same_text m a.enc a.base cs ds sa.expressible (rw same sb.expressible)
        (Holds-bytes m a.base (encoded_all a.enc cs) (rw n sa.text))
        (Holds-bytes m a.base (encoded_all a.enc ds) (rw n' other)) (n ∙ sym n')

  equal_sound : equal_strings m a b ≡ true → (a.enc ≡ b.enc) × (cs ≡ ds)
  unfolding equal_strings
  equal_sound e =
      let both = both_true (enc_value a.enc == enc_value b.enc) (equal_buffers m a.buf b.buf) e in
      let same =
        enc_value_injective a.enc b.enc ((==_iff (enc_value a.enc) (enc_value b.enc)).0 both.0) in
      (same, same_contents same ((equal_buffers_iff m a.buf b.buf sa.readable).0 both.1))

  equal_complete : a.enc ≡ b.enc → cs ≡ ds → equal_strings m a b ≡ true
  unfolding equal_strings
  equal_complete same e =
      let bytes_same : contents m a.buf ≡ contents m b.buf =
        sa.text ∙ ap₂ encoded_all same e ∙ sym sb.text in
      rw ((==_iff (enc_value a.enc) (enc_value b.enc)).1 (ap enc_value same))
        ((equal_buffers_iff m a.buf b.buf sa.readable).1 bytes_same)

-- EqualStrings decides, for two strings that hold texts in their encodings, both
-- readable, whether they have the same encoding and hold the same text.
pub equal_strings_iff :
    (m : Mem) (a b : String) (cs ds : List ℕ)
    → Shows m a cs
    → Shows m b ds
    → (equal_strings m a b ≡ true) ↔ ((a.enc ≡ b.enc) × (cs ≡ ds))
equal_strings_iff m a b cs ds sa sb =
    (equal_sound m a b cs ds sa sb, λ both. equal_complete m a b cs ds sa sb both.0 both.1)
