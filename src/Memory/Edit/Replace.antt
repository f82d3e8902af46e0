-- ===== src/Memory/Edit/Replace.antt =====
-- ReplaceByteInBuffer: it ends where the two bytes differ, and only there.
use mathlib.Core.Path.{fun_ext}
use tiny_base.Base.{
  ℕ, zero, suc, ◌+◌, ◌-◌, ◌≤◌, ◌<◌, ◌≡◌, ◌≢◌, ◌⊎◌, refl, ap, ◌∙◌, false, ◌&&◌, inl, inr, arith,
  Option, none, some, ◌==◌, if◌then◌else◌,
}
use tiny_base.Mem.{Mem, store8, within}
use tiny_base.Memory.{Buffer, IsReadable, invalid_idx, return_idx_find, idx_or_invalid}
use tiny_base.Memory.Search.{Kernels, byte_in_buffer}
use tiny_base.Memory.Search.Spec.{IsCorrect, IsLeast, ByteAt}
use tiny_base.Memory.Search.Laws.{byte_in_buffer-idx_find}
use tiny_base.Memory.Edit.{replace_byte_in_buffer, advance_buffer}

-- Every `old` in the written part became `new`, and no other byte changed.
abbrev pub Replaced : (old new : ℕ) → Buffer → Mem → Mem → Type 0
Replaced old new buf m g =
    (x : ℕ) → g x ≡ (if within buf.base buf.write_cur x && (m x == old) then new else m x)

module _ (k : Kernels) (c : IsCorrect k) (old new : ℕ) where
  module _ (m : Mem) (buf : Buffer) (fuel : ℕ) where
    stop :
        byte_in_buffer k m old buf return_idx_find ≡ invalid_idx
        → replace_byte_in_buffer k (suc fuel) m old new buf ≡ some m
    unfolding replace_byte_in_buffer
    stop e = rw e

    go_on :
        (i : ℕ)
        → i < invalid_idx
        → byte_in_buffer k m old buf return_idx_find ≡ i
        → replace_byte_in_buffer k (suc fuel) m old new buf
          ≡ replace_byte_in_buffer k fuel
              (store8 m (buf.base + i) new)
              old
              new
              (advance_buffer buf i)
    unfolding replace_byte_in_buffer
    go_on i lt e = let f : (i == invalid_idx) ≡ false = ground arith in rw (e, f)

  -- The rounds that are enough: one more than the bytes, or as many where the first is done.
  abbrev Enough : ℕ → Mem → Buffer → Type 0
  Enough fuel m buf =
      (buf.write_cur < fuel)
      ⊎ ((0 < buf.write_cur) × (buf.write_cur ≤ fuel) × (m (buf.base + 0) ≢ old))

  module _ (ne : old ≢ new) (byte : new < 256) where
    Replaced-step :
        (m g : Mem) (buf : Buffer) (i : ℕ)
        → IsReadable buf
        → IsLeast (ByteAt m old buf) (some i)
        → Replaced old new (advance_buffer buf i) (store8 m (buf.base + i) new) g
        → Replaced old new buf m g
    unfolding advance_buffer
    Replaced-step m g buf i r l h x = ground (arith, h x, l.1 (x - buf.base))

    Enough-step :
        (fuel : ℕ) (m : Mem) (buf : Buffer) (i : ℕ)
        → IsReadable buf
        → Enough (suc fuel) m buf
        → IsLeast (ByteAt m old buf) (some i)
        → Enough fuel (store8 m (buf.base + i) new) (advance_buffer buf i)
    unfolding advance_buffer
    Enough-step fuel m buf i r (inl lt) l = inr (omega arith, omega arith, ground arith)
    Enough-step fuel m buf i r (inr (pos, le, first)) l =
        inr (omega arith, ground arith, ground arith)

    abbrev Ends : ℕ → Mem → Buffer → Type 0
    Ends fuel m buf =
        (g : Mem) × (replace_byte_in_buffer k fuel m old new buf ≡ some g)
        × Replaced old new buf m g

    -- One round, with what the rounds after it do.
    round :
        (fuel : ℕ) (m : Mem) (buf : Buffer) (o : Option ℕ)
        → IsReadable buf
        → Enough (suc fuel) m buf
        → IsLeast (ByteAt m old buf) o
        → byte_in_buffer k m old buf return_idx_find ≡ idx_or_invalid o
        → ((m' : Mem) (buf' : Buffer) → IsReadable buf' → Enough fuel m' buf' → Ends fuel m' buf')
        → Ends (suc fuel) m buf
    round fuel m buf none r enough least e rest =
        (m, stop m buf fuel e, λ x. ground (arith, least (x - buf.base)))
    round fuel m buf (some i) r enough least e rest =
        let (g, runs, done) =
          rest (store8 m (buf.base + i) new) (advance_buffer buf i)
            (unfold advance_buffer in omega arith) (Enough-step fuel m buf i r enough least) in
        (g, go_on m buf fuel i (omega arith) e ∙ runs, Replaced-step m g buf i r least done)

    loop :
        (fuel : ℕ) (m : Mem) (buf : Buffer) → IsReadable buf → Enough fuel m buf → Ends fuel m buf
    loop zero m buf r (inl lt) = elim lt [ ]
    loop zero m buf r (inr (pos, le, first)) = absurd (omega arith)
    loop (suc fuel) m buf r enough =
        let (o, least, e) = byte_in_buffer-idx_find k m old buf c r in
        round fuel m buf o r enough least e (loop fuel)

-- With correct searches and two different bytes, ReplaceByteInBuffer on a readable buffer ends
-- within one round more than the buffer has bytes. It turns every old byte of the written part
-- into the new one, and changes no other byte of memory.
pub replace_byte_in_buffer-Replaced :
    (k : Kernels) (m : Mem) (old new : ℕ) (buf : Buffer) (fuel : ℕ)
    → IsCorrect k
    → IsReadable buf
    → new < 256
    → old ≢ new
    → buf.write_cur < fuel
    → (g : Mem) × (replace_byte_in_buffer k fuel m old new buf ≡ some g) × Replaced old new buf m g
replace_byte_in_buffer-Replaced k m old new buf fuel c r byte ne enough =
    loop k c old new ne byte fuel m buf r (inl enough)

store8_same : (m : Mem) (a : ℕ) → m a < 256 → store8 m a (m a) ≡ m
store8_same m a byte = fun_ext λ x. ground arith

-- With correct searches, ReplaceByteInBuffer that is asked to replace a byte by itself never ends
-- on a readable buffer that holds the byte: no number of rounds is enough.
pub replace_byte_in_buffer_diverges :
    (k : Kernels) (m : Mem) (byte i : ℕ) (buf : Buffer) (fuel : ℕ)
    → IsCorrect k
    → IsReadable buf
    → byte < 256
    → ByteAt m byte buf i
    → replace_byte_in_buffer k fuel m byte byte buf ≡ none
replace_byte_in_buffer_diverges k m byte i buf zero c r b at = unfold replace_byte_in_buffer in refl
replace_byte_in_buffer_diverges k m byte i buf (suc fuel) c r b at =
    let (o, least, e) = byte_in_buffer-idx_find k m byte buf c r in
    again o least e (λ j buf'. replace_byte_in_buffer_diverges k m byte j buf' fuel c)
  where
    again :
        (o : Option ℕ)
        → IsLeast (ByteAt m byte buf) o
        → byte_in_buffer k m byte buf return_idx_find ≡ idx_or_invalid o
        → ((j : ℕ) (buf' : Buffer)
            → IsReadable buf'
            → byte < 256
            → ByteAt m byte buf' j
            → replace_byte_in_buffer k fuel m byte byte buf' ≡ none)
        → replace_byte_in_buffer k (suc fuel) m byte byte buf ≡ none
    again none least e rest = absurd (least i at)
    again (some j) least e rest =
        let here : m (buf.base + j) ≡ byte = least.0.1 in
        let same : store8 m (buf.base + j) byte ≡ m =
          rw (← here) (store8_same m (buf.base + j) (omega arith)) in
        go_on k c byte byte m buf fuel j (omega arith) e
        ∙ rw same (
            rest 0 (advance_buffer buf j) (unfold advance_buffer in omega arith) b
              (unfold advance_buffer in (omega arith, ap m (omega arith) ∙ here)))
