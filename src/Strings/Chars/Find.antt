-- ===== src/Strings/Chars/Find.antt =====
-- CharInString: what it looks for, and where it finds it.
use mathlib.Core.Path.{fun_ext}
use tiny_base.Base.{
  subst, ℕ, ◌+◌, ◌^◌, ◌<◌, ◌≤◌, ◌≡◌, inl, inr, refl, sym, ap, ◌∙◌, arith, Bool-cases, false, Option,
  none, some, List, [], ◌∷◌, length, ◌==◌, ==_iff,
}
use tiny_base.Base.Word.{u8}
use tiny_base.Mem.{Mem, bytes, SameOutside, Disjoint}
use tiny_base.Mem.Laws.{bytes-outside}
use tiny_base.Memory.{Buffer, buffer, IsReadable, search_reverse}
use tiny_base.Memory.Search.{Kernels, byte_in_buffer, buffer_in_buffer}
use tiny_base.Memory.Search.Spec.{IsCorrect, IsLeast, IsGreatest, ByteAt, OccursAt, Reports}
use tiny_base.Memory.Search.Laws.{byte_in_buffer_lem, buffer_in_buffer_lem}
use tiny_base.Encoding.{Encoding, ascii, utf8, utf16le, utf16be, utf32le, utf32be}
use tiny_base.Encoding.Char.{encode_char, adjust_endianness, get_multibyte_char_size}
use tiny_base.Encoding.Char.Spec.{encoded, CanEncode}
use tiny_base.Encoding.Char.Size.{
  get_multibyte_char_size-encode_char, length-encoded-le, length-encoded_pos,
}
use tiny_base.Strings.{String}
use tiny_base.Strings.Append.{store_word}
use tiny_base.Strings.Append.Local.{low_bytes, char_bytes, bytes-local_char, store_word-SameOutside}
use tiny_base.Strings.Chars.{char_in_string}

-- The encoding with the same units, lowest byte first.
abbrev pub low_first : Encoding → Encoding
low_first ascii = ascii
low_first utf8 = utf8
low_first utf16le = utf16le
low_first utf16be = utf16le
low_first utf32le = utf32le
low_first utf32be = utf32le

-- The written part of `h` holds the bytes from index `i` on.
abbrev pub StandsAt : Mem → Buffer → List ℕ → ℕ → Type 0
StandsAt m h xs i = (i + length xs ≤ h.write_cur) × (bytes m (h.base + i) (length xs) ≡ xs)

-- The same for a character, lowest byte first.
abbrev pub CharAt : Mem → Buffer → Encoding → ℕ → ℕ → Type 0
CharAt m h enc c = StandsAt m h (encoded (low_first enc) c)

low_first-can : (enc : Encoding) (c : ℕ) → CanEncode enc c → CanEncode (low_first enc) c
low_first-can ascii c can = can
low_first-can utf8 c can = can
low_first-can utf16le c can = can
low_first-can utf16be c can = can
low_first-can utf32le c can = can
low_first-can utf32be c can = can

low_first-code :
    (enc : Encoding) (c : ℕ)
    → adjust_endianness (encode_char c (low_first enc)) (low_first enc) ≡ encode_char c enc
unfolding adjust_endianness encode_char
low_first-code ascii c = refl
low_first-code utf8 c = refl
low_first-code utf16le c = refl
low_first-code utf16be c = refl
low_first-code utf32le c = refl
low_first-code utf32be c = refl

low_first-same_size :
    (enc : Encoding) (c : ℕ)
    → get_multibyte_char_size (encode_char c enc) enc
      ≡ get_multibyte_char_size (encode_char c (low_first enc)) (low_first enc)
unfolding get_multibyte_char_size encode_char
low_first-same_size ascii c = refl
low_first-same_size utf8 c = refl
low_first-same_size utf16le c = refl
low_first-same_size utf16be c = refl
low_first-same_size utf32le c = refl
low_first-same_size utf32be c = refl

pub low_first-size :
    (enc : Encoding) (c : ℕ)
    → CanEncode enc c
    → get_multibyte_char_size (encode_char c enc) enc ≡ length (encoded (low_first enc) c)
low_first-size enc c can =
    low_first-same_size enc c
    ∙ get_multibyte_char_size-encode_char (low_first enc) c (low_first-can enc c can)

module _ (P Q : ℕ → Type 0) (to : (i : ℕ) → P i → Q i) (from : (i : ℕ) → Q i → P i) where
  IsLeast-iff : (o : Option ℕ) → IsLeast P o → IsLeast Q o
  IsLeast-iff none l = λ j q. l j (from j q)
  IsLeast-iff (some i) l = (to i l.0, λ j lt q. l.1 j lt (from j q))

  IsGreatest-iff : (o : Option ℕ) → IsGreatest P o → IsGreatest Q o
  IsGreatest-iff none l = λ j q. l j (from j q)
  IsGreatest-iff (some i) l = (to i l.0, λ j lt q. l.1 j lt (from j q))

-- A query reports the first place of `P`, and in reverse the last.
abbrev pub Finds : (P : ℕ → Type 0) (find : ℕ → ℕ) (base n : ℕ) → Type 0
Finds P find base n =
    ((o : Option ℕ) × IsLeast P o × Reports find 0 base n o)
    × ((o : Option ℕ) × IsGreatest P o × Reports find search_reverse base n o)

Finds-iff :
    (P Q : ℕ → Type 0) (find : ℕ → ℕ) (base n : ℕ)
    → ((i : ℕ) → P i → Q i)
    → ((i : ℕ) → Q i → P i)
    → Finds P find base n
    → Finds Q find base n
Finds-iff P Q find base n to from ((o, l, r), (o', g, r')) =
    ((o, IsLeast-iff P Q to from o l, r), (o', IsGreatest-iff P Q to from o' g, r'))

module _ (k : Kernels) (local : ℕ) (m : Mem) (needle : ℕ) (h : String) where
  pub by_byte :
      get_multibyte_char_size needle h.enc ≡ 1
      → byte_in_buffer k m (u8 needle) h.buf ≡ char_in_string k local m needle h
  unfolding char_in_string
  by_byte e = fun_ext λ flags. rw e refl

  by_bytes :
      (get_multibyte_char_size needle h.enc == 1) ≡ false
      → buffer_in_buffer k
          (store_word m local needle)
          (buffer local (get_multibyte_char_size needle h.enc) 0)
          h.buf
        ≡ char_in_string k local m needle h
  unfolding char_in_string
  by_bytes e = fun_ext λ flags. rw e refl

one_byte :
    (m : Mem) (b : ℕ) (h : Buffer) (find : ℕ → ℕ)
    → Finds (ByteAt m b h) find h.base 1
    → Finds (StandsAt m h (b ∷ [])) find h.base 1
one_byte m b h find found =
    Finds-iff (ByteAt m b h) (StandsAt m h (b ∷ [])) find h.base 1
      (λ i p. (omega arith, ap (λ x. x ∷ []) p.1)) (λ i q. (omega arith, head (m (h.base + i)) q.1))
      found
  where
    head : (x : ℕ) → (x ∷ []) ≡ (b ∷ []) → x ≡ b
    head x e = cc

module _ (m m' : Mem) (needle h : Buffer) (xs : List ℕ) (frame : SameOutside needle.base 4 m m')
    (apart : Disjoint needle.base 4 h.base h.write_cur) (size : needle.write_cur ≡ length xs)
    (text : bytes m' needle.base needle.write_cur ≡ xs) where
  same_place :
      (i : ℕ)
      → i + needle.write_cur ≤ h.write_cur
      → bytes m' (h.base + i) needle.write_cur ≡ bytes m (h.base + i) needle.write_cur
  same_place i le = bytes-outside needle.base 4 (h.base + i) needle.write_cur frame (inner apart)
    where
      inner :
          Disjoint needle.base 4 h.base h.write_cur
          → Disjoint needle.base 4 (h.base + i) needle.write_cur
      inner (inl l) = inl (omega arith)
      inner (inr r) = inr (omega arith)

  some_bytes :
      (find : ℕ → ℕ)
      → Finds (OccursAt m' needle h) find h.base needle.write_cur
      → Finds (StandsAt m h xs) find h.base (length xs)
  some_bytes find found = rw size at (
      Finds-iff (OccursAt m' needle h) (StandsAt m h xs) find h.base needle.write_cur
        (λ i p. (
          omega (arith, size, p.0),
          ap (bytes m (h.base + i)) (sym size) ∙ sym (same_place i p.0) ∙ p.1 ∙ text,
        ))
        (λ i q.
          let le : i + needle.write_cur ≤ h.write_cur = omega (arith, size, q.0) in
          (le, same_place i le ∙ ap (bytes m (h.base + i)) size ∙ q.1 ∙ sym text))
        found)

-- With correct searches, CharInString on a readable string reports, in all five forms, the first
-- place where the bytes of the character stand lowest byte first, and with SEARCH_REVERSE the last.
-- Where there is none, the indices are INVALID_IDX and both pointers are null, also the one of
-- RETURN_PTR_AFTER, for which the header says INVALID_IDX. The parameter does not lie in the string.
-- In UTF-16BE and UTF-32BE these are not the bytes of the character in the string.
pub char_in_string_lem :
    (k : Kernels) (local : ℕ) (m : Mem) (c : ℕ) (h : String)
    → IsCorrect k
    → IsReadable h.buf
    → CanEncode h.enc c
    → local + 4 < 2 ^ 64
    → Disjoint local 4 h.base h.write_cur
    → Finds
        (CharAt m h.buf h.enc c)
        (char_in_string k local m (encode_char c h.enc) h)
        h.base
        (length (encoded (low_first h.enc) c))
char_in_string_lem k local m c h correct readable can region apart =
    let code = encode_char c h.enc in
    let e = low_first h.enc in
    let size = low_first-size h.enc c can in
    let text = rw (low_first-code h.enc c) at (char_bytes e c (low_first-can h.enc c can)) in
    elim (Bool-cases (get_multibyte_char_size code h.enc == 1)) [
      | inl t ↦
          let one = (==_iff (get_multibyte_char_size code h.enc) 1).0 t in
          let single = ap (low_bytes code) (sym (sym size ∙ one)) ∙ text in
          let found = byte_in_buffer_lem k m (u8 code) h.buf correct readable in
          subst (λ find. Finds (CharAt m h.buf h.enc c) find h.base (length (encoded e c)))
            (by_byte k local m code h one)
            (subst
              (λ xs.
                Finds (StandsAt m h.buf xs) (byte_in_buffer k m (u8 code) h.buf) h.base (length xs))
              single (one_byte m (u8 code) h.buf (byte_in_buffer k m (u8 code) h.buf) found))
      | inr f ↦
          let m' = store_word m local code in
          let needle = buffer local (get_multibyte_char_size code h.enc) 0 in
          let pos = length-encoded_pos e c in
          let le = length-encoded-le e c in
          let stored =
            rw (low_first-code h.enc c) at
              (bytes-local_char m local e c (low_first-can h.enc c can)) in
          let found =
            buffer_in_buffer_lem k m' needle h.buf correct (omega (arith, size, pos))
              (omega (arith, region, size, le)) readable in
          subst (λ find. Finds (CharAt m h.buf h.enc c) find h.base (length (encoded e c)))
            (by_bytes k local m code h f)
            (some_bytes m m' needle h.buf (encoded e c) (store_word-SameOutside m local code) apart
              size (ap (bytes m' local) (low_first-same_size h.enc c) ∙ stored)
              (buffer_in_buffer k m' needle h.buf) found)
    ]
