-- ===== src/Strings/Number/Scan.antt =====
-- The loop over a text, in any encoding.
use native.Mathlib.Decide.{dec_lt}
use tiny_base.Base.{
  ℕ, zero, suc, ◌+◌, ◌^◌, ◌≤◌, ◌<◌, ◌≡◌, inl, inr, refl, sym, ap, ◌∙◌, arith, Option, Option-cases,
  none, some, List, [], ◌∷◌, length, length-append, lt→ltb, le→ltb,
}
use tiny_base.Base.Word.{add_usz}
use tiny_base.Mem.{Mem}
use tiny_base.Encoding.{unit_size}
use tiny_base.Encoding.Char.{encode_char}
use tiny_base.Encoding.Char.Spec.{encoded, CanEncode}
use tiny_base.Encoding.Char.Bytes.{Holds, Holds-append}
use tiny_base.Encoding.Char.Size.{length-encoded_pos}
use tiny_base.Encoding.Char.Reads.{ReadsAs}
use tiny_base.Encoding.Char.Laws.{encoded-ReadsAs}
use tiny_base.Encoding.Char.Low.{encode_char_low, encode_char_of_low, length-encoded_low}
use tiny_base.Strings.{String, encoded_all}
use tiny_base.Strings.Transcode.Spec.{AllCan}
use tiny_base.Strings.Number.{scan}

-- The text folded by the body of the loop.
unfoldable pub fold_text : (add : (result char : ℕ) → Option ℕ) → List ℕ → ℕ → Option ℕ
fold_text add [] result = some result
fold_text add (c ∷ cs) result = elim (add result c) [ none ↦ none | some r ↦ fold_text add cs r ]

module _ (add : (result char : ℕ) → Option ℕ) (result c : ℕ) (cs : List ℕ) where
  pub fold_text-none : add result c ≡ none → fold_text add (c ∷ cs) result ≡ none
  unfolding fold_text
  fold_text-none e = rw (e, fold_text) refl

  pub fold_text-some :
      (r : ℕ) → add result c ≡ some r → fold_text add (c ∷ cs) result ≡ fold_text add cs r
  unfolding fold_text
  fold_text-some r e = rw (e, fold_text) refl

-- A body that goes on at characters below 0x80 only.
abbrev pub TakesLow : ((result char : ℕ) → Option ℕ) → Type 0
TakesLow add = (result char r : ℕ) → add result char ≡ some r → char < 0x80

module _ (add : (result char : ℕ) → Option ℕ) (low : TakesLow add) (m : Mem) (src : String) where
  returns_high : (result x : ℕ) → 0x80 ≤ x → add result x ≡ none
  returns_high result x high = elim (Option-cases (add result x)) [
    | inl e ↦ e
    | inr (r, e) ↦ let l = low result x r e in absurd (omega arith)
  ]

  -- The body does at a code point what it does at its form in the encoding.
  same_char :
      (result c : ℕ) → CanEncode src.enc c → add result (encode_char c src.enc) ≡ add result c
  same_char result c can = elim (dec_lt (encode_char c src.enc) 0x80) [
    | yes l ↦ ap (add result) (encode_char_low src.enc c can l)
    | no high ↦ elim (dec_lt c 0x80) [
      | yes l ↦ ap (add result) (encode_char_of_low src.enc c l)
      | no high' ↦
          returns_high result (encode_char c src.enc) (omega arith)
          ∙ sym (returns_high result c (omega arith))
    ]
  ]

  -- The loop at the characters `cs`.
  pub scan-fold_text :
      (fuel idx result : ℕ) (cs : List ℕ)
      → length cs < fuel
      → AllCan src.enc cs
      → Holds m (src.base + idx) (encoded_all src.enc cs)
      → idx + length (encoded_all src.enc cs) ≡ src.write_cur
      → src.write_cur < 2 ^ 64
      → scan add m src fuel idx result ≡ some (fold_text add cs result)
  unfolding scan fold_text
  scan-fold_text zero idx result cs enough can holds at word = elim enough [ ]
  scan-fold_text (suc fuel) idx result [] enough can holds at word =
      rw (le→ltb idx src.write_cur (omega arith)) refl
  scan-fold_text (suc fuel) idx result (c ∷ cs) enough can holds at word =
      elim (Option-cases (add result c)) [
        | inl e ↦
            rw
              (
                lt→ltb idx src.write_cur more,
                reads.next_char,
                same_char result c can.0,
                e,
                fold_text-none add result c cs e,
              )
              refl
        | inr (r, e) ↦
            let unit = length-encoded_low src.enc c (low result c r e) in
            let next : add_usz idx (unit_size src.enc) ≡ idx + length (encoded src.enc c) =
              omega (arith, len, unit) in
            let assoc : src.base + (idx + length (encoded src.enc c))
                ≡ src.base + idx + length (encoded src.enc c) =
              omega arith in
            let later =
              scan-fold_text fuel (idx + length (encoded src.enc c)) r cs (omega arith) can.1
                (rw assoc parts.1) (omega (arith, len)) word in
            rw
              (
                lt→ltb idx src.write_cur more,
                reads.next_char,
                same_char result c can.0,
                e,
                next,
                fold_text-some add result c cs r e,
              )
              later
      ]
    where
      len :
          length (encoded_all src.enc (c ∷ cs))
          ≡ length (encoded src.enc c) + length (encoded_all src.enc cs)
      len = length-append (encoded src.enc c) (encoded_all src.enc cs)

      more : idx < src.write_cur
      more = omega (arith, len, length-encoded_pos src.enc c)

      parts :
          Holds m (src.base + idx) (encoded src.enc c)
          × Holds m (src.base + idx + length (encoded src.enc c)) (encoded_all src.enc cs)
      parts = Holds-append m (src.base + idx) (encoded src.enc c) (encoded_all src.enc cs) holds

      reads : ReadsAs m (src.base + idx) src.enc c
      reads = encoded-ReadsAs m (src.base + idx) src.enc c can.0 parts.0
