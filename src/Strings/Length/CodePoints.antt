-- ===== src/Strings/Length/CodePoints.antt =====
-- StringLen with LEN_CODEPOINT counts the characters of the text.
use tiny_base.Base.{
  ℕ, zero, suc, ◌+◌, ◌*◌, ◌/◌, ◌%◌, ◌^◌, ◌≤◌, ◌<◌, ◌≡◌, ◌⊎◌, inl, inr, refl, ap, ◌∙◌, arith, Bool,
  true, false, not, Bool-cases, some, List, [], ◌∷◌, ◌++◌, length, length-append, lt→ltb, le→ltb,
  ◌==◌, if◌then◌else◌,
}
use tiny_base.Base.Bits.{bit_and-field}
use tiny_base.Base.Word.{add_usz}
use tiny_base.Mem.{Mem, bytes}
use tiny_base.Memory.{Buffer}
use tiny_base.Encoding.{Encoding, ascii, utf8, utf16le, utf16be, utf32le, utf32be}
use tiny_base.Encoding.Utf8.Laws.{tail_byte}
use tiny_base.Encoding.Char.{get_next_char_size, utf16le_char_size, utf16be_char_size}
use tiny_base.Encoding.Char.Spec.{encoded, utf8_bytes}
use tiny_base.Encoding.Char.Size.{length-encoded_pos}
use tiny_base.Strings.{String, encoded_all}
use tiny_base.Strings.Transcode.Spec.{AllCan}
use tiny_base.Strings.Walk.{
  Shows, Shows-length, Shows-TextAt, TextAt, TextAt-end, TextAt-more, TextAt-reads, TextAt-step,
  TextAt-next,
}
use tiny_base.Strings.Length.{
  starts_char, count_bytes, utf8_len_code_points, len_loop, utf16le_len_code_points,
  utf16be_len_code_points, code_points, string_len, len_codepoint,
}
use native.Mathlib.Decide.{dec_lt}

-- How many bytes of a list pass a test.
pub count : (ℕ → Bool) → List ℕ → ℕ
count test [] = 0
count test (x ∷ xs) = if test x then suc (count test xs) else count test xs

pub count_bytes-count :
    (test : ℕ → Bool) (m : Mem) (base rounds idx result : ℕ)
    → result + rounds < 2 ^ 64
    → count_bytes test m base rounds idx result ≡ result + count test (bytes m (base + idx) rounds)
unfolding count_bytes count
count_bytes-count test m base zero idx result small = omega arith
count_bytes-count test m base (suc rounds) idx result small =
    let e : base + (idx + 1) ≡ base + idx + 1 = omega arith in
    elim (Bool-cases (test (m (base + idx)))) [
      | inl t ↦
          let word : add_usz result 1 ≡ result + 1 = omega arith in
          let later = count_bytes-count test m base rounds (idx + 1) (result + 1) (omega arith) in
          rw (t, word, later, e) (omega arith)
      | inr t ↦
          let later = count_bytes-count test m base rounds (idx + 1) result (omega arith) in
          rw (t, later, e) refl
    ]

count-append :
    (test : ℕ → Bool) (xs ys : List ℕ) → count test (xs ++ ys) ≡ count test xs + count test ys
unfolding count
count-append test [] ys = omega arith
count-append test (x ∷ xs) ys = ground (arith, count-append test xs ys)

starts_char_top : (b : ℕ) → starts_char b ≡ not (b / 2 ^ 6 % 2 ^ 2 * 2 ^ 6 == 0x80)
unfolding starts_char
starts_char_top b = ap (λ x. not (x == 0x80)) (bit_and-field 2 6 b)

starts_char-tail_byte : (x : ℕ) → starts_char (tail_byte x) ≡ false
starts_char-tail_byte x =
    let e : (0x80 + x % 64) / 2 ^ 6 % 2 ^ 2 * 2 ^ 6 ≡ 0x80 = omega arith in
    starts_char_top (tail_byte x) ∙ rw e refl

starts_char_lead : (b : ℕ) → (b < 0x80) ⊎ (0xc0 ≤ b) → b < 0x100 → starts_char b ≡ true
starts_char_lead b lead small = starts_char_top b ∙ ground arith

-- One byte of a character is its first.
count-utf8_bytes : (c : ℕ) → c < 0x110000 → count starts_char (utf8_bytes c) ≡ 1
unfolding count
count-utf8_bytes c can = elim (dec_lt c 0x80) [
  | yes one ↦ rw (lt→ltb c 0x80 one, starts_char_lead c (inl one) (omega arith)) refl
  | no n1 ↦ elim (dec_lt c 0x800) [
    | yes two ↦
        rw
          (
            le→ltb c 0x80 (omega arith),
            lt→ltb c 0x800 two,
            starts_char_lead (0xc0 + c / 64) (inr (omega arith)) (omega arith),
            starts_char-tail_byte c,
          )
          refl
    | no n2 ↦ elim (dec_lt c 0x10000) [
      | yes three ↦
          rw
            (
              le→ltb c 0x80 (omega arith),
              le→ltb c 0x800 (omega arith),
              lt→ltb c 0x10000 three,
              starts_char_lead (0xe0 + c / 4096) (inr (omega arith)) (omega arith),
              starts_char-tail_byte (c / 64),
              starts_char-tail_byte c,
            )
            refl
      | no n3 ↦
          rw
            (
              le→ltb c 0x80 (omega arith),
              le→ltb c 0x800 (omega arith),
              le→ltb c 0x10000 (omega arith),
              starts_char_lead (0xf0 + c / 2 ^ 18) (inr (omega arith)) (omega arith),
              starts_char-tail_byte (c / 4096),
              starts_char-tail_byte (c / 64),
              starts_char-tail_byte c,
            )
            refl
    ]
  ]
]

count-encoded_all :
    (cs : List ℕ) → AllCan utf8 cs → count starts_char (encoded_all utf8 cs) ≡ length cs
unfolding count encoded
count-encoded_all [] can = refl
count-encoded_all (c ∷ cs) can = omega (
  arith,
  count-append starts_char (encoded utf8 c) (encoded_all utf8 cs),
  count-utf8_bytes c can.0.0,
  count-encoded_all cs can.1,
)

-- Encodings in which every character has `n` bytes.
length-encoded_all :
    (enc : Encoding) (n : ℕ) (cs : List ℕ)
    → ((c : ℕ) → length (encoded enc c) ≡ n)
    → length (encoded_all enc cs) ≡ length cs * n
length-encoded_all enc n [] each = omega arith
length-encoded_all enc n (c ∷ cs) each = omega (
  arith,
  length-append (encoded enc c) (encoded_all enc cs),
  each c,
  length-encoded_all enc n cs each,
)

-- The loop, with a size that is right at every character.
len_loop_lem :
    (size_at : ℕ → ℕ) (m : Mem) (a : String) (fuel idx result : ℕ) (cs : List ℕ)
    → ((p : ℕ) → size_at p ≡ get_next_char_size m p a.enc)
    → length cs < fuel
    → result ≤ idx
    → TextAt m a idx cs
    → len_loop size_at a fuel idx result ≡ some (result + length cs)
unfolding len_loop
len_loop_lem size_at m a zero idx result cs sizes enough le t = elim enough [ ]
len_loop_lem size_at m a (suc fuel) idx result [] sizes enough le t =
    rw (le→ltb idx a.write_cur (TextAt-end m a idx t)) (ap some (omega arith))
len_loop_lem size_at m a (suc fuel) idx result (c ∷ cs) sizes enough le t =
    let n = length (encoded a.enc c) in
    let size : size_at (a.base + idx) ≡ n =
      sizes (a.base + idx) ∙ (TextAt-reads m a idx c cs t).next_size in
    let word : add_usz result 1 ≡ result + 1 =
      omega (arith, t.region, TextAt-more m a idx c cs t) in
    let later =
      len_loop_lem size_at m a fuel (idx + n) (result + 1) cs sizes (omega arith)
        (omega (arith, length-encoded_pos a.enc c)) (TextAt-next m a idx c cs t) in
    rw (lt→ltb idx a.write_cur (TextAt-more m a idx c cs t), size, TextAt-step m a idx c cs t, word)
      (later ∙ ap some (omega arith))

code_points_lem :
    (enc : Encoding) (buf : Buffer) (fuel : ℕ) (m : Mem) (cs : List ℕ)
    → length cs < fuel
    → Shows m (record { buf = buf; enc = enc }) cs
    → code_points enc fuel m (record { buf = buf; enc = enc }) ≡ some (length cs)
unfolding code_points utf8_len_code_points utf16le_len_code_points utf16be_len_code_points
    get_next_char_size encoded
code_points_lem ascii buf fuel m cs enough shows = ap some (
    Shows-length m (record { buf = buf; enc = ascii }) cs shows
    ∙ length-encoded_all ascii 1 cs (λ c. refl)
    ∙ omega arith)
code_points_lem utf8 buf fuel m cs enough shows =
    let e : buf.base + 0 ≡ buf.base = omega arith in
    let whole =
      count_bytes-count starts_char m buf.base buf.write_cur 0 0 (omega (arith, shows.readable)) in
    ap some (whole ∙ rw (e, shows.text) (omega (arith, count-encoded_all cs shows.expressible)))
code_points_lem utf16le buf fuel m cs enough shows =
    let a : String = record { buf = buf; enc = utf16le } in
    len_loop_lem (utf16le_char_size m) m a fuel 0 0 cs (λ p. refl) enough (omega arith)
      (Shows-TextAt m a cs shows)
    ∙ ap some (omega arith)
code_points_lem utf16be buf fuel m cs enough shows =
    let a : String = record { buf = buf; enc = utf16be } in
    len_loop_lem (utf16be_char_size m) m a fuel 0 0 cs (λ p. refl) enough (omega arith)
      (Shows-TextAt m a cs shows)
    ∙ ap some (omega arith)
code_points_lem utf32le buf fuel m cs enough shows =
    let len =
      Shows-length m (record { buf = buf; enc = utf32le }) cs shows
      ∙ length-encoded_all utf32le 4 cs (λ c. refl) in
    ap some (omega (arith, len))
code_points_lem utf32be buf fuel m cs enough shows =
    let len =
      Shows-length m (record { buf = buf; enc = utf32be }) cs shows
      ∙ length-encoded_all utf32be 4 cs (λ c. refl) in
    ap some (omega (arith, len))

-- StringLen with LEN_CODEPOINT of a readable text ends within one round more than the text has
-- characters, and returns their number, in each of the six encodings.
pub string_len-code_points :
    (fuel : ℕ) (m : Mem) (a : String) (cs : List ℕ)
    → length cs < fuel
    → Shows m a cs
    → string_len fuel m a len_codepoint ≡ some (length cs)
unfolding string_len
string_len-code_points fuel m a cs enough shows = code_points_lem a.enc a.buf fuel m cs enough shows
