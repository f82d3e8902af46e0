-- ===== src/Strings/Chars/Count.antt =====
-- CountCharInString of a character of one byte.
use tiny_base.Base.{
  ℕ, zero, suc, ◌+◌, ◌-◌, ◌^◌, ◌<◌, ◌≡◌, ◌≢◌, ◌⊎◌, inl, inr, refl, sym, ap, ◌∙◌, arith, Option,
  none, some, ◌==◌, ==_refl, ne→==, if◌then◌else◌,
}
use tiny_base.Base.Word.{u8, add_usz, sub_usz}
use tiny_base.Mem.{Mem}
use tiny_base.Memory.{Buffer, IsReadable, invalid_idx, return_idx_after}
use tiny_base.Memory.Search.{Kernels, byte_in_buffer}
use tiny_base.Memory.Search.Spec.{IsCorrect, IsLeast, ByteAt, Reports}
use tiny_base.Memory.Search.Laws.{byte_in_buffer_lem}
use tiny_base.Memory.Edit.{advance_buffer}
use tiny_base.Encoding.{Encoding, ascii, utf8}
use tiny_base.Encoding.Char.{get_multibyte_char_size}
use tiny_base.Strings.{String}
use tiny_base.Strings.Chars.{char_in_string, count_loop, count_char_in_string}
use tiny_base.Strings.Chars.Find.{by_byte}

-- How often the byte stands in the `n` bytes from `a` on.
unfoldable pub occurrences : Mem → (byte a n : ℕ) → ℕ
occurrences m byte a zero = 0
occurrences m byte a (suc n) =
    let rest = occurrences m byte (a + 1) n in if m a == byte then suc rest else rest

module _ (m : Mem) (byte : ℕ) where
  occurrences-none : (a n : ℕ) → ((i : ℕ) → i < n → m (a + i) ≢ byte) → occurrences m byte a n ≡ 0
  unfolding occurrences
  occurrences-none a zero clear = refl
  occurrences-none a (suc n) clear =
      let here : m a ≢ byte = λ e. clear 0 (omega arith) (ap m (omega arith) ∙ e) in
      rw (ne→== (m a) byte here) (
        occurrences-none (a + 1) n (λ i lt e. clear (suc i) (omega arith) (ap m (omega arith) ∙ e)))

  -- Up to the first that is found, and behind it.
  occurrences-first :
      (a i n k : ℕ)
      → k ≡ i + suc n
      → ((j : ℕ) → j < i → m (a + j) ≢ byte)
      → m (a + i) ≡ byte
      → occurrences m byte a k ≡ suc (occurrences m byte (a + (i + 1)) n)
  unfolding occurrences
  occurrences-first a zero n zero e clear here = absurd (omega arith)
  occurrences-first a (suc i) n zero e clear here = absurd (omega arith)
  occurrences-first a zero n (suc k) e clear here =
      let at : m a ≡ byte = ap m (omega arith) ∙ here in
      let len : k ≡ n = omega arith in
      let next : a + 1 ≡ a + (0 + 1) = omega arith in rw (at, ==_refl byte, len, next) refl
  occurrences-first a (suc i) n (suc k) e clear here =
      let first : m a ≢ byte = λ e. clear 0 (omega arith) (ap m (omega arith) ∙ e) in
      let next : a + (suc i + 1) ≡ a + 1 + (i + 1) = omega arith in
      rw (ne→== (m a) byte first, next)
        (occurrences-first (a + 1) i n k (omega arith)
          (λ j lt same. clear (suc j) (omega arith) (ap m (omega arith) ∙ same))
          (ap m (omega arith) ∙ here))

pub narrow_size :
    (c : ℕ)
    → c < 0x80
    → (get_multibyte_char_size c ascii ≡ 1) × (get_multibyte_char_size c utf8 ≡ 1)
unfolding get_multibyte_char_size
narrow_size c small = (ground arith, ground arith)

-- RETURN_IDX_AFTER of a place that was found.
abbrev after_of : Option ℕ → ℕ
after_of none = invalid_idx
after_of (some i) = i + 1

Reports-after :
    (find : ℕ → ℕ) (base : ℕ) (o : Option ℕ)
    → Reports find 0 base 1 o
    → find return_idx_after ≡ after_of o
Reports-after find base none r = r.2
Reports-after find base (some i) r = r.2

module _ (k : Kernels) (local : ℕ) (m : Mem) (needle : ℕ) (enc : Encoding) where
  count_end :
      (fuel result : ℕ) (buf : Buffer)
      → char_in_string k local m needle (record { buf = buf; enc = enc }) return_idx_after
        ≡ invalid_idx
      → count_loop k local (suc fuel) m needle (record { buf = buf; enc = enc }) result
        ≡ some result
  unfolding count_loop
  count_end fuel result buf e = rw e refl

  count_round :
      (fuel result : ℕ) (buf : Buffer) (idx : ℕ)
      → idx ≢ invalid_idx
      → char_in_string k local m needle (record { buf = buf; enc = enc }) return_idx_after ≡ idx
      → count_loop k local (suc fuel) m needle (record { buf = buf; enc = enc }) result
        ≡ count_loop k local fuel m needle
            (record { buf = advance_buffer buf idx; enc = enc })
            (add_usz result 1)
  unfolding count_loop
  count_round fuel result buf idx ne e = rw (e, ne→== idx invalid_idx ne) refl

  module _ (correct : IsCorrect k) (byte : needle < 256)
      (single : get_multibyte_char_size needle enc ≡ 1) where
    found :
        (buf : Buffer)
        → IsReadable buf
        → (o : Option ℕ) × IsLeast (ByteAt m needle buf) o
          × (char_in_string k local m needle (record { buf = buf; enc = enc }) return_idx_after
              ≡ after_of o)
    found buf readable =
        let s : String = record { buf = buf; enc = enc } in
        let ((o, least, reports), _) = byte_in_buffer_lem k m needle buf correct readable in
        let code : u8 needle ≡ needle = omega arith in
        let same =
          ap (λ x. byte_in_buffer k m x buf) (sym code) ∙ by_byte k local m needle s single in
        (
          o,
          least,
          ap (λ find. find return_idx_after) (sym same)
              ∙ Reports-after (byte_in_buffer k m needle buf) buf.base o reports,
        )

    abbrev Counts : ℕ → (result : ℕ) → Buffer → Type 0
    Counts fuel result buf =
        count_loop k local fuel m needle (record { buf = buf; enc = enc }) result
        ≡ some (result + occurrences m needle buf.base buf.write_cur)

    round :
        (fuel result : ℕ) (buf : Buffer) (o : Option ℕ)
        → IsReadable buf
        → buf.write_cur < suc fuel
        → result + buf.write_cur + 1 < 2 ^ 64
        → IsLeast (ByteAt m needle buf) o
        → char_in_string k local m needle (record { buf = buf; enc = enc }) return_idx_after
          ≡ after_of o
        → ((result' : ℕ) (buf' : Buffer)
            → IsReadable buf'
            → buf'.write_cur < fuel
            → result' + buf'.write_cur + 1 < 2 ^ 64
            → Counts fuel result' buf')
        → Counts (suc fuel) result buf
    unfolding advance_buffer
    round fuel result buf none readable enough small least e rest =
        let zero_times =
          occurrences-none m needle buf.base buf.write_cur (λ i lt at. least i (lt, at)) in
        count_end fuel result buf e ∙ ap some (omega (arith, zero_times))
    round fuel result buf (some i) readable enough small ((inside, here), before) e rest =
        let left : sub_usz buf.write_cur (i + 1) ≡ buf.write_cur - (i + 1) = omega arith in
        let next : add_usz result 1 ≡ result + 1 = omega arith in
        let one =
          occurrences-first m needle buf.base i (buf.write_cur - (i + 1)) buf.write_cur
            (omega arith) (λ j lt at. before j lt (omega arith, at)) here in
        let later =
          rest (result + 1)
            (record buf { base = buf.base + (i + 1); write_cur = buf.write_cur - (i + 1) })
            (omega arith) (omega arith) (omega arith) in
        count_round fuel result buf (i + 1) (λ same. absurd (omega (arith, same))) e
        ∙ rw (left, next) (later ∙ ap some (omega (arith, one)))

    count_loop-occurrences :
        (fuel result : ℕ) (buf : Buffer)
        → IsReadable buf
        → buf.write_cur < fuel
        → result + buf.write_cur + 1 < 2 ^ 64
        → Counts fuel result buf
    count_loop-occurrences zero result buf readable enough small = absurd (omega arith)
    count_loop-occurrences (suc fuel) result buf readable enough small =
        let (o, least, e) = found buf readable in
        round fuel result buf o readable enough small least e (count_loop-occurrences fuel)

-- CountCharInString of a character below 0x80 in a readable ASCII or UTF-8 string whose length is
-- not the largest word, with correct searches, ends within one round more than the string has bytes
-- and returns how often the byte of the character stands in it.
pub count_char_in_string-occurrences :
    (k : Kernels) (local fuel : ℕ) (m : Mem) (c : ℕ) (s : String)
    → IsCorrect k
    → IsReadable s.buf
    → (s.enc ≡ ascii) ⊎ (s.enc ≡ utf8)
    → c < 0x80
    → s.write_cur < fuel
    → s.write_cur + 1 < 2 ^ 64
    → count_char_in_string k local fuel m c s ≡ some (occurrences m c s.base s.write_cur)
unfolding count_char_in_string
count_char_in_string-occurrences k local fuel m c s correct readable narrow small enough room =
    count_loop-occurrences k local m c s.enc correct (omega arith) (one_byte narrow) fuel 0 s.buf
      readable enough (omega arith)
    ∙ ap some (omega arith)
  where
    one_byte : (s.enc ≡ ascii) ⊎ (s.enc ≡ utf8) → get_multibyte_char_size c s.enc ≡ 1
    one_byte (inl e) = rw e (narrow_size c small).0
    one_byte (inr e) = rw e (narrow_size c small).1
