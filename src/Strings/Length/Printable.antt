-- ===== src/Strings/Length/Printable.antt =====
-- StringLen with LEN_PRINTCHAR in UTF-16: the signed `char` loses characters.
use tiny_base.Base.{
  ℕ, suc, ◌+◌, ◌-◌, ◌^◌, ◌≤◌, ◌<◌, ◌≡◌, refl, ap, ◌∙◌, arith, true, some, [], ◌∷◌, lt→ltb, le→ltb,
}
use tiny_base.Base.Bits.{bit_or-field}
use tiny_base.Base.Word.{add_usz}
use tiny_base.Mem.{Mem}
use tiny_base.Memory.{Buffer}
use tiny_base.Encoding.{utf16le}
use tiny_base.Encoding.Char.{utf16le_char_size}
use tiny_base.Encoding.Char.Spec.{encoded}
use tiny_base.Strings.{String}
use tiny_base.Strings.Walk.{Shows, Shows-length, Shows-TextAt, TextAt-here}
use tiny_base.Strings.Length.{
  signed_char, is_printable, signed_two, utf16le_print_char, print_loop, utf16_print_step,
  utf16le_len_print_char, print_chars, string_len, len_printchar,
}

module _ (m : Mem) (p c : ℕ) (lo : 0x80 ≤ c) (hi : c < 0x100) (low : m p ≡ c)
    (high : m (p + 1) ≡ 0) where
  -- The low byte is negative, so all the bits above it are set.
  latin_char : utf16le_print_char m p ≡ c + (2 ^ 32 - 0x100)
  unfolding utf16le_print_char utf16le_char_size signed_two
  latin_char =
      let e : signed_char c ≡ c + (2 ^ 32 - 0x100) = rw (le→ltb c 0x80 lo) refl in
      rw (high, low, e) (bit_or-field 32 0 (c + (2 ^ 32 - 0x100)) (omega arith) ∙ omega arith)

  latin_step :
      (utf16_print_step p (c + (2 ^ 32 - 0x100)) ≡ 4) × (is_printable (c + (2 ^ 32 - 0x100)) ≡ true)
  unfolding utf16_print_step is_printable
  latin_step = (ground arith, ground arith)

module _ (char_at : ℕ → ℕ) (size_of : (ptr char : ℕ) → ℕ) (stop fuel ptr result : ℕ) where
  print_round :
      (n : ℕ)
      → ptr < stop
      → size_of ptr (char_at ptr) ≡ n
      → is_printable (char_at ptr) ≡ true
      → print_loop char_at size_of stop (suc fuel) ptr result
        ≡ print_loop char_at size_of stop fuel (ptr + n) (add_usz result 1)
  unfolding print_loop
  print_round n more size shown = rw (lt→ltb ptr stop more, size, shown) refl

  print_end : stop ≤ ptr → print_loop char_at size_of stop (suc fuel) ptr result ≡ some result
  unfolding print_loop
  print_end le = rw (le→ltb ptr stop le) refl

-- StringLen with LEN_PRINTCHAR of a readable text in UTF-16LE of two characters, the first of which
-- is from U+0080 to U+00FF and the second below U+D800, returns 1, also where both are printable:
-- the second character is skipped.
pub string_len-latin :
    (fuel : ℕ) (m : Mem) (buf : Buffer) (c d : ℕ)
    → Shows m (record { buf = buf; enc = utf16le }) (c ∷ d ∷ [])
    → 0x80 ≤ c
    → c < 0x100
    → d < 0xD800
    → string_len (suc (suc fuel)) m (record { buf = buf; enc = utf16le }) len_printchar ≡ some 1
unfolding string_len print_chars utf16le_len_print_char encoded
string_len-latin fuel m buf c d shows lo hi small =
    let a : String = record { buf = buf; enc = utf16le } in
    let tc = lt→ltb c 0x10000 (omega arith) in
    let td = lt→ltb d 0x10000 (omega arith) in
    let len : buf.write_cur ≡ 4 = Shows-length m a (c ∷ d ∷ []) shows ∙ rw (tc, td) refl in
    let here = rw tc at (TextAt-here m a 0 c (d ∷ []) (Shows-TextAt m a (c ∷ d ∷ []) shows)) in
    let e0 : buf.base + 0 ≡ buf.base = omega arith in
    let low : m buf.base ≡ c = ap m (omega arith) ∙ here.0 ∙ omega arith in
    let high : m (buf.base + 1) ≡ 0 = ap m (omega arith) ∙ here.1.0 ∙ omega arith in
    let char = latin_char m buf.base c lo hi low high in
    let step = latin_step m buf.base c lo hi low high in
    let one =
      print_round (utf16le_print_char m) utf16_print_step (buf.base + 4) (suc fuel) buf.base 0 4
        (omega arith) (rw char step.0) (rw char step.1) in
    let two =
      print_end (utf16le_print_char m) utf16_print_step (buf.base + 4) fuel (buf.base + 4)
        (add_usz 0 1) (omega arith) in
    rw len (one ∙ two)
