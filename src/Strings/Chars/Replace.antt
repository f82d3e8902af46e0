-- ===== src/Strings/Chars/Replace.antt =====
-- ReplaceCharInString of characters of one byte.
use tiny_base.Base.{
  ℕ, zero, suc, ◌+◌, ◌<◌, ◌≤◌, ◌≡◌, ◌≢◌, ◌⊎◌, inl, inr, refl, sym, ap, ap₂, subst, ◌∙◌, arith, Bool,
  true, false, some, List, [], ◌∷◌, ◌++◌, ◌==◌, if◌then◌else◌, Bool-cases, ltb,
}
use tiny_base.Base.Word.{u8}
use tiny_base.Mem.{Mem, bytes, SameOutside}
use tiny_base.Memory.{Buffer}
use tiny_base.Memory.Search.{Kernels}
use tiny_base.Memory.Search.Spec.{IsCorrect}
use tiny_base.Memory.Edit.{replace_byte_in_buffer}
use tiny_base.Memory.Edit.Replace.{Replaced, replace_byte_in_buffer-Replaced}
use tiny_base.Encoding.{Encoding, ascii, utf8}
use tiny_base.Encoding.Char.{get_multibyte_char_size}
use tiny_base.Encoding.Char.Spec.{encoded, CanEncode}
use tiny_base.Strings.{String, encoded_all}
use tiny_base.Strings.Transcode.Spec.{AllCan}
use tiny_base.Strings.Walk.{Shows}
use tiny_base.Strings.Chars.{replace_char_in_string}
use tiny_base.Strings.Chars.Count.{narrow_size}

-- The numbers with every `old` turned into `new`.
abbrev pub replaced : (old new : ℕ) → List ℕ → List ℕ
replaced old new [] = []
replaced old new (x ∷ xs) = (if x == old then new else x) ∷ replaced old new xs

module _ (old new : ℕ) where
  replaced-append :
      (xs ys : List ℕ) → replaced old new (xs ++ ys) ≡ replaced old new xs ++ replaced old new ys
  replaced-append [] ys = refl
  replaced-append (x ∷ xs) ys =
      ap (λ zs. (if x == old then new else x) ∷ zs) (replaced-append xs ys)

  replaced-bytes :
      (m g : Mem) (buf : Buffer) (a n : ℕ)
      → Replaced old new buf m g
      → buf.base ≤ a
      → a + n ≤ buf.base + buf.write_cur
      → bytes g a n ≡ replaced old new (bytes m a n)
  replaced-bytes m g buf a zero h lo hi = refl
  replaced-bytes m g buf a (suc n) h lo hi =
      ap₂ ◌∷◌ (ground (arith, h a)) (replaced-bytes m g buf (a + 1) n h (omega arith) (omega arith))

  module _ (small_old : old < 0x80) (small_new : new < 0x80) where
    high : (x : ℕ) → 0x80 ≤ x → (if x == old then new else x) ≡ x
    high x le = ground arith

    -- A byte of a character is one of these only where it is the character.
    replaced-encoded_utf8 :
        (c : ℕ) → replaced old new (encoded utf8 c) ≡ encoded utf8 (if c == old then new else c)
    unfolding encoded
    replaced-encoded_utf8 c = elim (Bool-cases (c == old)) [
      | inl t ↦
          let one : ltb c 0x80 ≡ true = ground arith in
          let one' : ltb new 0x80 ≡ true = ground arith in rw (t, one, one', t) refl
      | inr f ↦ rw f (kept c f)
    ]
      where
        kept : (c : ℕ) → (c == old) ≡ false → replaced old new (encoded utf8 c) ≡ encoded utf8 c
        kept c f = elim (Bool-cases (ltb c 0x80)) [
          | inl t ↦ rw (t, f) refl
          | inr f1 ↦ elim (Bool-cases (ltb c 0x800)) [
            | inl t ↦
                rw (f1, t) (ap₂ (λ a b. a ∷ b ∷ []) (high _ (omega arith)) (high _ (omega arith)))
            | inr f2 ↦ elim (Bool-cases (ltb c 0x10000)) [
              | inl t ↦
                  rw (f1, f2, t)
                    (ap₂ ◌∷◌ (high _ (omega arith))
                      (ap₂ (λ a b. a ∷ b ∷ []) (high _ (omega arith)) (high _ (omega arith))))
              | inr f3 ↦
                  rw (f1, f2, f3)
                    (ap₂ ◌∷◌ (high _ (omega arith)) (
                      ap₂ ◌∷◌ (high _ (omega arith))
                        (ap₂ (λ a b. a ∷ b ∷ []) (high _ (omega arith)) (high _ (omega arith)))))
            ]
          ]
        ]

    replaced-encoded_all :
        (enc : Encoding)
        → ((c : ℕ) → replaced old new (encoded enc c) ≡ encoded enc (if c == old then new else c))
        → (cs : List ℕ)
        → replaced old new (encoded_all enc cs) ≡ encoded_all enc (replaced old new cs)
    replaced-encoded_all enc each [] = refl
    replaced-encoded_all enc each (c ∷ cs) =
        replaced-append (encoded enc c) (encoded_all enc cs)
        ∙ ap₂ ◌++◌ (each c) (replaced-encoded_all enc each cs)

    AllCan-replaced :
        (enc : Encoding)
        → CanEncode enc new
        → (cs : List ℕ) → AllCan enc cs
        → AllCan enc (replaced old new cs)
    AllCan-replaced enc can [] all = _
    AllCan-replaced enc can (c ∷ cs) (here, later) =
        (one (c == old), AllCan-replaced enc can cs later)
      where
        one : (b : Bool) → CanEncode enc (if b then new else c)
        one true = can
        one false = here

    narrow-replaced :
        (enc : Encoding)
        → (enc ≡ ascii) ⊎ (enc ≡ utf8)
        → ((c : ℕ) → replaced old new (encoded enc c) ≡ encoded enc (if c == old then new else c))
          × CanEncode enc new
          × (get_multibyte_char_size old enc ≡ 1)
          × (get_multibyte_char_size new enc ≡ 1)
    unfolding encoded
    narrow-replaced enc (inl e) =
        subst
          (λ enc.
            ((c : ℕ) → replaced old new (encoded enc c) ≡ encoded enc (if c == old then new else c))
            × CanEncode enc new
            × (get_multibyte_char_size old enc ≡ 1)
            × (get_multibyte_char_size new enc ≡ 1))
          (sym e)
          (λ c. refl, small_new, (narrow_size old small_old).0, (narrow_size new small_new).0)
    narrow-replaced enc (inr e) =
        subst
          (λ enc.
            ((c : ℕ) → replaced old new (encoded enc c) ≡ encoded enc (if c == old then new else c))
            × CanEncode enc new
            × (get_multibyte_char_size old enc ≡ 1)
            × (get_multibyte_char_size new enc ≡ 1))
          (sym e)
          (
            replaced-encoded_utf8,
            omega arith,
            (narrow_size old small_old).1,
            (narrow_size new small_new).1,
          )

-- ReplaceCharInString of two different characters below 0x80 in an ASCII or UTF-8 string that holds
-- a text, with correct searches, ends within one round more than the string has bytes and returns
-- true. The string then holds the text with every old character turned into the new one, and no
-- byte outside the string has changed.
pub replace_char_in_string-Shows :
    (k : Kernels) (local new_char fuel : ℕ) (m : Mem) (old new : ℕ) (a : String) (cs : List ℕ)
    → IsCorrect k
    → (a.enc ≡ ascii) ⊎ (a.enc ≡ utf8)
    → old < 0x80
    → new < 0x80
    → old ≢ new
    → Shows m a cs
    → a.write_cur < fuel
    → (g : Mem) × (replace_char_in_string k local new_char fuel m old new a ≡ some (true, g))
      × Shows g a (replaced old new cs)
      × SameOutside a.base a.write_cur m g
unfolding replace_char_in_string
replace_char_in_string-Shows k local new_char fuel m old new a cs correct narrow small_old small_new
      other shows enough =
    let (each, can, _, _) = narrow-replaced old new small_old small_new a.enc narrow in
    let (g, runs, done) =
      replace_byte_in_buffer-Replaced k m old new a.buf fuel correct shows.readable (omega arith)
        other enough in
    (
      g,
      by_byte g runs,
      record {
        readable = shows.readable;
        text =
            replaced-bytes old new m g a.buf a.base a.write_cur done (omega arith) (omega arith)
            ∙ ap (replaced old new) shows.text
            ∙ replaced-encoded_all old new small_old small_new a.enc each cs;
        expressible = AllCan-replaced old new small_old small_new a.enc can cs shows.expressible;
      },
      λ x out. ground (arith, done x, out),
    )
  where
    by_byte :
        (g : Mem)
        → replace_byte_in_buffer k fuel m old new a.buf ≡ some g
        → replace_char_in_string k local new_char fuel m old new a ≡ some (true, g)
    by_byte g runs =
        let (_, _, size_old, size_new) = narrow-replaced old new small_old small_new a.enc narrow in
        let byte_old : u8 old ≡ old = omega arith in
        let byte_new : u8 new ≡ new = omega arith in
        rw (replace_char_in_string, size_old, size_new, byte_old, byte_new, runs) refl
