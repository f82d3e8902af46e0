-- ===== src/Strings/Print/Array.antt =====
-- The array of digits that the printing functions fill from behind.
use tiny_base.Base.{
  subst, ℕ, zero, suc, ◌+◌, ◌*◌, ◌/◌, ◌%◌, ◌<◌, ◌≡◌, ◌≢◌, inl, inr, refl, ap, ◌∙◌, arith, List, [],
  ◌∷◌, ◌++◌, ne→==,
}
use tiny_base.Base.Word.{u8}
use tiny_base.Mem.{Mem, store8, SameOutside}
use tiny_base.Encoding.{Encoding, ascii, utf8, utf16le, utf16be, utf32le, utf32be, unit_size}
use tiny_base.Encoding.Char.Spec.{encoded}
use tiny_base.Encoding.Char.Bytes.{Holds, Holds-same}
use tiny_base.Strings.{encoded_all}
use tiny_base.Strings.Print.{digit_offset, store_digits}
use tiny_base.Strings.Print.Decimal.{low_digits}

-- The bytes of a character below 0x80.
abbrev pub low_char : Encoding → ℕ → List ℕ
low_char ascii c = c ∷ []
low_char utf8 c = c ∷ []
low_char utf16le c = c ∷ 0 ∷ []
low_char utf16be c = 0 ∷ c ∷ []
low_char utf32le c = c ∷ 0 ∷ 0 ∷ 0 ∷ []
low_char utf32be c = 0 ∷ 0 ∷ 0 ∷ c ∷ []

pub encoded_of_low : (enc : Encoding) (c : ℕ) → c < 0x80 → encoded enc c ≡ low_char enc c
unfolding encoded
encoded_of_low ascii c small = refl
encoded_of_low utf8 c small = ground arith
encoded_of_low utf16le c small = ground arith
encoded_of_low utf16be c small = ground arith
encoded_of_low utf32le c small = ground arith
encoded_of_low utf32be c small = ground arith

pub offset_inside : (enc : Encoding) → digit_offset enc < unit_size enc
offset_inside ascii = omega arith
offset_inside utf8 = omega arith
offset_inside utf16le = omega arith
offset_inside utf16be = omega arith
offset_inside utf32le = omega arith
offset_inside utf32be = omega arith

-- A character of the array, whose bytes were zero.
module _ (m : Mem) (a c : ℕ) (rest : List ℕ) (small : c < 0x80) where
  hit : (o x : ℕ) → x ≡ a + o → store8 m (a + o) c x ≡ c
  hit o x e = ground arith

  miss :
      (n o i x : ℕ)
      → ((j : ℕ) → j < n → m (a + j) ≡ 0)
      → i < n
      → i ≢ o
      → x ≡ a + i
      → store8 m (a + o) c x ≡ 0
  miss n o i x zeros lt ne e =
      rw (e, ne→== (a + i) (a + o) (λ same. ne (omega (arith, same)))) (zeros i lt)

  store_char :
      (enc : Encoding)
      → ((i : ℕ) → i < unit_size enc → m (a + i) ≡ 0)
      → Holds (store8 m (a + digit_offset enc) c) (a + unit_size enc) rest
      → Holds (store8 m (a + digit_offset enc) c) a (low_char enc c ++ rest)
  store_char ascii zeros holds = (hit 0 a (omega arith), holds)
  store_char utf8 zeros holds = (hit 0 a (omega arith), holds)
  store_char utf16le zeros holds =
      let e : a + 2 ≡ a + 1 + 1 = omega arith in
      (
        hit 0 a (omega arith),
        (miss 2 0 1 (a + 1) zeros (omega arith) (omega arith) (omega arith), rw e at holds),
      )
  store_char utf16be zeros holds =
      let e : a + 2 ≡ a + 1 + 1 = omega arith in
      (
        miss 2 1 0 a zeros (omega arith) (omega arith) (omega arith),
        (hit 1 (a + 1) (omega arith), rw e at holds),
      )
  store_char utf32le zeros holds =
      let e : a + 4 ≡ a + 1 + 1 + 1 + 1 = omega arith in
      (
        hit 0 a (omega arith),
        (
          miss 4 0 1 (a + 1) zeros (omega arith) (omega arith) (omega arith),
          (
            miss 4 0 2 (a + 1 + 1) zeros (omega arith) (omega arith) (omega arith),
            (
              miss 4 0 3 (a + 1 + 1 + 1) zeros (omega arith) (omega arith) (omega arith),
              rw e at holds,
            ),
          ),
        ),
      )
  store_char utf32be zeros holds =
      let e : a + 4 ≡ a + 1 + 1 + 1 + 1 = omega arith in
      (
        miss 4 3 0 a zeros (omega arith) (omega arith) (omega arith),
        (
          miss 4 3 1 (a + 1) zeros (omega arith) (omega arith) (omega arith),
          (
            miss 4 3 2 (a + 1 + 1) zeros (omega arith) (omega arith) (omega arith),
            (hit 3 (a + 1 + 1 + 1) (omega arith), rw e at holds),
          ),
        ),
      )

  -- The same by the standard, with what stands behind the character.
  pub stored_char :
      (enc : Encoding)
      → ((i : ℕ) → i < unit_size enc → m (a + i) ≡ 0)
      → Holds m (a + unit_size enc) rest
      → Holds (store8 m (a + digit_offset enc) c) a (encoded enc c ++ rest)
  stored_char enc zeros holds = rw (encoded_of_low enc c small) (
      store_char enc zeros (
        Holds-same m (store8 m (a + digit_offset enc) c) (a + unit_size enc) rest
          (λ y lo hi. let off = offset_inside enc in ground (arith, off)) holds))

-- The digits fill the array from behind, as the decimal text does.
module _ (limit : ℕ) (div10 rem10 : ℕ → ℕ) (divides : (n : ℕ) → n < limit → div10 n ≡ n / 10)
    (remains : (n : ℕ) → n < limit → rem10 n ≡ n % 10) (enc : Encoding) (ptr : ℕ) where
  pub store_digits-Holds :
      (left n : ℕ) (m : Mem) (tail : List ℕ)
      → n < limit
      → ((i : ℕ) → i < left * unit_size enc → m (ptr + i) ≡ 0)
      → Holds m (ptr + left * unit_size enc) (encoded_all enc tail)
      → Holds
          (store_digits div10 rem10 enc ptr left m n)
          ptr
          (encoded_all enc (low_digits left n tail))
  unfolding store_digits low_digits
  store_digits-Holds zero n m tail small zeros holds =
      let e : ptr + 0 * unit_size enc ≡ ptr = omega arith in
      subst (λ a. Holds m a (encoded_all enc tail)) e holds
  store_digits-Holds (suc left) n m tail small zeros holds =
      let e : ptr + (left * unit_size enc + digit_offset enc)
          ≡ ptr + left * unit_size enc + digit_offset enc =
        omega arith in
      let char : u8 (rem10 n + 0x30) ≡ n % 10 + 0x30 = rw (remains n small) (omega arith) in
      rw (divides n small, char, e)
        (store_digits-Holds left (n / 10)
          (store8 m (ptr + left * unit_size enc + digit_offset enc) (n % 10 + 0x30))
          ((n % 10 + 0x30) ∷ tail) (omega arith) (λ i lt. untouched i lt (zeros i (omega arith)))
          (stored_char m (ptr + left * unit_size enc) (n % 10 + 0x30) (encoded_all enc tail)
            (omega arith) enc
            (λ i lt. ap m (omega arith) ∙ zeros (left * unit_size enc + i) (omega arith))
            (subst (λ a. Holds m a (encoded_all enc tail)) (omega arith) holds)))
    where
      untouched :
          (i : ℕ)
          → i < left * unit_size enc
          → m (ptr + i) ≡ 0
          → store8 m (ptr + left * unit_size enc + digit_offset enc) (n % 10 + 0x30) (ptr + i) ≡ 0
      untouched i lt z = ground (arith, z)

  pub store_digits-SameOutside :
      (left n : ℕ) (m : Mem)
      → SameOutside ptr (left * unit_size enc) m (store_digits div10 rem10 enc ptr left m n)
  unfolding store_digits
  store_digits-SameOutside zero n m x out = refl
  store_digits-SameOutside (suc left) n m x (inl l) =
      store_digits-SameOutside left (div10 n)
        (store8 m (ptr + (left * unit_size enc + digit_offset enc)) (u8 (rem10 n + 0x30))) x (inl l)
      ∙ ground arith
  store_digits-SameOutside (suc left) n m x (inr r) =
      let off = offset_inside enc in
      store_digits-SameOutside left (div10 n)
        (store8 m (ptr + (left * unit_size enc + digit_offset enc)) (u8 (rem10 n + 0x30))) x
        (inr (omega (arith, off)))
      ∙ ground (arith, off)
