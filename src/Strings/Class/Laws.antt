-- ===== src/Strings/Class/Laws.antt =====
-- The tests of a string are true exactly where all its characters are in the class.
use native.Mathlib.Decide.{dec_lt}
use tiny_base.Base.{
  ℕ, zero, suc, ◌+◌, ◌≤◌, ◌<◌, ◌≡◌, refl, sym, ap, ◌∙◌, arith, Bool, true, false, Bool-cases, ◌&&◌,
  ◌||◌, some, List, [], ◌∷◌, length, lt→ltb, le→ltb, inl, inr,
}
use tiny_base.Base.Word.{add_usz}
use mathlib.Core.Bool.{false≢true}
use tiny_base.Mem.{Mem}
use tiny_base.Memory.{Buffer}
use tiny_base.Encoding.{Encoding, ascii, utf8, utf16le, utf16be, utf32le, utf32be, unit_size}
use tiny_base.Encoding.Char.{
  get_next_char, get_next_char_size, read_bytes, adjust_endianness, encode_char,
}
use tiny_base.Encoding.Char.Spec.{encoded, CanEncode}
use tiny_base.Encoding.Char.Low.{encode_char_low, encode_char_of_low, length-encoded_low}
use tiny_base.Encoding.Char.Bytes.{Holds}
use tiny_base.Strings.{String}
use tiny_base.Strings.Walk.{
  Shows, Shows-TextAt, TextAt, TextAt-end, TextAt-more, TextAt-here, TextAt-reads, TextAt-step,
  TextAt-next,
}
use tiny_base.Strings.Number.{char_is_digit}
use tiny_base.Strings.Class.{
  char_is_letter, char_is_alphanum, by_unit, all_chars, string_is_digit, string_is_letter,
  string_is_alphanum,
}

-- All characters of a text pass a test.
pub all : (ℕ → Bool) → List ℕ → Bool
all test [] = true
all test (c ∷ cs) = test c && all test cs

-- A test that only characters below 0x80 pass.
abbrev OnlyLow : (ℕ → Bool) → Type 0
OnlyLow test = (x : ℕ) → 0x80 ≤ x → test x ≡ false

-- A byte read as ASCII is the first byte of the character in UTF-8.
first_byte :
    (m : Mem) (p c : ℕ)
    → Holds m p (encoded utf8 c)
    → (c < 0x80 → m p ≡ c) × (0x80 ≤ c → 0x80 ≤ m p)
unfolding encoded
first_byte m p c h = (low, high)
  where
    low : c < 0x80 → m p ≡ c
    low l = (rw (lt→ltb c 0x80 l) at h).0

    high : 0x80 ≤ c → 0x80 ≤ m p
    high g = elim (dec_lt c 0x800) [
      | yes two ↦ let h' = rw (le→ltb c 0x80 g, lt→ltb c 0x800 two) at h in omega (arith, h'.0)
      | no n2 ↦ elim (dec_lt c 0x10000) [
        | yes three ↦
            let h' =
              rw (le→ltb c 0x80 g, le→ltb c 0x800 (omega arith), lt→ltb c 0x10000 three) at h in
            omega (arith, h'.0)
        | no n3 ↦
            let h' =
              rw (le→ltb c 0x80 g, le→ltb c 0x800 (omega arith), le→ltb c 0x10000 (omega arith)) at
                h in
            omega (arith, h'.0)
      ]
    ]

unit_by_unit : (enc : Encoding) → unit_size (by_unit enc) ≡ unit_size enc
unit_by_unit ascii = refl
unit_by_unit utf8 = refl
unit_by_unit utf16le = refl
unit_by_unit utf16be = refl
unit_by_unit utf32le = refl
unit_by_unit utf32be = refl

all-alphanum :
    (cs : List ℕ) → all char_is_alphanum cs ≡ all (λ c. char_is_digit c || char_is_letter c) cs
unfolding all char_is_digit char_is_letter char_is_alphanum
all-alphanum [] = refl
all-alphanum (c ∷ cs) = ground (arith, all-alphanum cs)

module _ (test : ℕ → Bool) (low : OnlyLow test) where
  same_test : (enc : Encoding) (c : ℕ) → CanEncode enc c → test (encode_char c enc) ≡ test c
  same_test enc c can = elim (dec_lt (encode_char c enc) 0x80) [
    | yes l ↦ ap test (encode_char_low enc c can l)
    | no high ↦ elim (dec_lt c 0x80) [
      | yes l ↦ ap test (encode_char_of_low enc c l)
      | no high' ↦ low (encode_char c enc) (omega arith) ∙ sym (low c (omega arith))
    ]
  ]

  test_here :
      (m : Mem) (buf : Buffer) (enc : Encoding) (idx c : ℕ) (cs : List ℕ)
      → TextAt m (record { buf = buf; enc = enc }) idx (c ∷ cs)
      → test (get_next_char m (buf.base + idx) (by_unit enc)) ≡ test c
  unfolding get_next_char get_next_char_size read_bytes adjust_endianness
  test_here m buf ascii idx c cs t =
      ap test (TextAt-reads m (record { buf = buf; enc = ascii }) idx c cs t).next_char
      ∙ same_test ascii c t.can.0
  test_here m buf utf8 idx c cs t =
      let first =
        first_byte m (buf.base + idx) c
          (TextAt-here m (record { buf = buf; enc = utf8 }) idx c cs t) in
      elim (dec_lt c 0x80) [
        | yes l ↦ ap test (first.0 l)
        | no g ↦ low (m (buf.base + idx)) (first.1 (omega arith)) ∙ sym (low c (omega arith))
      ]
  test_here m buf utf16le idx c cs t =
      ap test (TextAt-reads m (record { buf = buf; enc = utf16le }) idx c cs t).next_char
      ∙ same_test utf16le c t.can.0
  test_here m buf utf16be idx c cs t =
      ap test (TextAt-reads m (record { buf = buf; enc = utf16be }) idx c cs t).next_char
      ∙ same_test utf16be c t.can.0
  test_here m buf utf32le idx c cs t =
      ap test (TextAt-reads m (record { buf = buf; enc = utf32le }) idx c cs t).next_char
      ∙ same_test utf32le c t.can.0
  test_here m buf utf32be idx c cs t =
      ap test (TextAt-reads m (record { buf = buf; enc = utf32be }) idx c cs t).next_char
      ∙ same_test utf32be c t.can.0

  all_chars-all :
      (m : Mem) (src : String) (fuel idx : ℕ) (cs : List ℕ)
      → length cs < fuel
      → TextAt m src idx cs
      → all_chars test m src fuel idx ≡ some (all test cs)
  unfolding all_chars all
  all_chars-all m src zero idx cs enough t = elim enough [ ]
  all_chars-all m src (suc fuel) idx [] enough t =
      rw (le→ltb idx src.write_cur (TextAt-end m src idx t)) refl
  all_chars-all m src (suc fuel) idx (c ∷ cs) enough t =
      let more = lt→ltb idx src.write_cur (TextAt-more m src idx c cs t) in
      let here = test_here m src.buf src.enc idx c cs t in
      elim (Bool-cases (test c)) [
        | inr no_pass ↦ rw (more, here, no_pass) refl
        | inl pass ↦
            let small : c < 0x80 = elim (dec_lt c 0x80) [
              | yes l ↦ l
              | no g ↦
                  let e : false ≡ true = sym (low c (omega arith)) ∙ pass in absurd (false≢true e)
            ] in
            let unit = unit_by_unit src.enc ∙ sym (length-encoded_low src.enc c small) in
            let step : add_usz idx (unit_size (by_unit src.enc))
                ≡ idx + length (encoded src.enc c) =
              ap (add_usz idx) unit ∙ TextAt-step m src idx c cs t in
            let later =
              all_chars-all m src fuel (idx + length (encoded src.enc c)) cs (omega arith)
                (TextAt-next m src idx c cs t) in
            rw (more, here, pass, step) later
      ]

digit-OnlyLow : OnlyLow char_is_digit
unfolding char_is_digit
digit-OnlyLow x high = ground arith

letter-OnlyLow : OnlyLow char_is_letter
unfolding char_is_letter
letter-OnlyLow x high = ground arith

alphanum-OnlyLow : OnlyLow char_is_alphanum
unfolding char_is_alphanum
alphanum-OnlyLow x high = ground arith

-- StringIsDigit, StringIsLetter and StringIsAlphanum of a readable text end within one round more
-- than the text has characters. In every encoding they return whether all the characters of the
-- text are digits, letters, and digits or letters.
pub string_is_lem :
    (fuel : ℕ) (m : Mem) (src : String) (cs : List ℕ)
    → length cs < fuel
    → Shows m src cs
    → (string_is_digit fuel m src ≡ some (all char_is_digit cs))
      × (string_is_letter fuel m src ≡ some (all char_is_letter cs))
      × (string_is_alphanum fuel m src ≡ some (all (λ c. char_is_digit c || char_is_letter c) cs))
unfolding string_is_digit string_is_letter string_is_alphanum
string_is_lem fuel m src cs enough shows =
    let t = Shows-TextAt m src cs shows in
    (
      all_chars-all char_is_digit digit-OnlyLow m src fuel 0 cs enough t,
      all_chars-all char_is_letter letter-OnlyLow m src fuel 0 cs enough t,
      all_chars-all char_is_alphanum alphanum-OnlyLow m src fuel 0 cs enough t
          ∙ ap some (all-alphanum cs),
    )
