-- ===== src/Memory/Search/Laws.antt =====
-- The flags of a query choose the direction and how the place found is reported.
use tiny_base.Base.{
  ℕ, ◌+◌, ◌≤◌, ◌<◌, ◌≡◌, ◌^◌, false, Option, none, some, arith, ◌==◌, if◌then◌else◌,
}
use tiny_base.Base.Word.{add_usz}
use tiny_base.Mem.{Mem}
use tiny_base.Memory.{
  Buffer, IsReadable, search_reverse, return_idx_find, has_flag, idx_or_invalid, invalid_idx,
}
use tiny_base.Memory.Search.{
  Kernels, reverse_byte_in_buffer_idx_simple, reverse_buffer_in_buffer_idx_simple, dispatch,
  byte_in_buffer, buffer_in_buffer,
}
use tiny_base.Memory.Search.Spec.{IsLeast, IsGreatest, ByteAt, OccursAt, Reports, IsCorrect}
use tiny_base.Memory.Search.Portable.{
  reverse_byte_in_buffer_idx_simple_lem, reverse_buffer_in_buffer_idx_simple_lem,
}

-- A found place is inside the address space.
abbrev InRange : (base wc n : ℕ) → Option ℕ → Type 0
InRange base wc n none = Unit {0}
InRange base wc n (some i) = (i + n ≤ wc) × (base + wc < 2 ^ 64)

-- Both queries have this form.
abbrev query : (base n up down : ℕ) → ℕ → ℕ
query base n up down flags =
    if has_flag flags search_reverse then dispatch flags base n down else dispatch flags base n up

-- The chain of flag tests gives each form of the result.
query-Reports :
    (base wc n up down : ℕ) (o : Option ℕ)
    → 0 < n
    → InRange base wc n o
    → up ≡ idx_or_invalid o
    → Reports (query base n up down) 0 base n o
unfolding dispatch
query-Reports base wc n up down none pos h u = (rw u, u, rw u, rw u, rw u)
query-Reports base wc n up down (some i) pos h u =
    let e : (i == invalid_idx) ≡ false = ground arith in
    let after : add_usz i n ≡ i + n = omega arith in
    let find : add_usz base i ≡ base + i = omega arith in
    let past : add_usz (add_usz base i) n ≡ base + i + n = omega arith in
    (rw (u, e), u, rw (u, e, after), rw (u, e, find), rw (u, e, past))

query-Reports_reverse :
    (base wc n up down : ℕ) (o : Option ℕ)
    → 0 < n
    → InRange base wc n o
    → down ≡ idx_or_invalid o
    → Reports (query base n up down) search_reverse base n o
unfolding dispatch
query-Reports_reverse base wc n up down none pos h u = (rw u, u, rw u, rw u, rw u)
query-Reports_reverse base wc n up down (some i) pos h u =
    let e : (i == invalid_idx) ≡ false = ground arith in
    let after : add_usz i n ≡ i + n = omega arith in
    let find : add_usz base i ≡ base + i = omega arith in
    let past : add_usz (add_usz base i) n ≡ base + i + n = omega arith in
    (rw (u, e), u, rw (u, e, after), rw (u, e, find), rw (u, e, past))

module _ (P : ℕ → Type 0) (base wc n : ℕ) (fits : base + wc < 2 ^ 64)
    (inside : (i : ℕ) → P i → i + n ≤ wc) where
  IsLeast-InRange : (o : Option ℕ) → IsLeast P o → InRange base wc n o
  IsLeast-InRange none l = tt
  IsLeast-InRange (some i) l = (inside i l.0, fits)

  IsGreatest-InRange : (o : Option ℕ) → IsGreatest P o → InRange base wc n o
  IsGreatest-InRange none l = tt
  IsGreatest-InRange (some i) l = (inside i l.0, fits)

-- With correct searches, ByteInBuffer on a readable haystack reports the first index that holds
-- the byte, and with SEARCH_REVERSE the last, in all five forms: as a test, as the index, as the
-- index after it, as a pointer and as the pointer after it; INVALID_IDX or 0 where there is none.
pub byte_in_buffer_lem :
    (k : Kernels) (m : Mem) (needle : ℕ) (h : Buffer)
    → IsCorrect k
    → IsReadable h
    → ((o : Option ℕ) × IsLeast (ByteAt m needle h) o
        × Reports (byte_in_buffer k m needle h) 0 h.base 1 o)
      × ((o : Option ℕ) × IsGreatest (ByteAt m needle h) o
          × Reports (byte_in_buffer k m needle h) search_reverse h.base 1 o)
unfolding byte_in_buffer
byte_in_buffer_lem k m needle h c r =
    let first = k.byte_in_buffer_idx m needle h in
    let last = reverse_byte_in_buffer_idx_simple m needle h in
    let (o, least, e) = c.finds_byte m needle h r in
    let (o', greatest, e') = reverse_byte_in_buffer_idx_simple_lem m needle h in
    let P = ByteAt m needle h in
    let up = IsLeast-InRange P h.base h.write_cur 1 r (λ i q. omega arith) o least in
    let down = IsGreatest-InRange P h.base h.write_cur 1 r (λ i q. omega arith) o' greatest in
    (
      (o, least, query-Reports h.base h.write_cur 1 first last o (omega arith) up e),
      (
        o',
        greatest,
        query-Reports_reverse h.base h.write_cur 1 first last o' (omega arith) down e',
      ),
    )

-- With correct searches, BufferInBuffer with a nonempty readable needle and a readable haystack
-- reports the first place where all of the needle occurs, and with SEARCH_REVERSE the last, in all
-- five forms: the ones after it are the place plus the needle's length, and where there is none all
-- pointers are null and all indices INVALID_IDX. The header says otherwise in two places: that a
-- needle of 35 bytes found at 400 gives 436, while this is 435; and that RETURN_PTR_AFTER gives
-- INVALID_IDX where there is none.
pub buffer_in_buffer_lem :
    (k : Kernels) (m : Mem) (needle h : Buffer)
    → IsCorrect k
    → 0 < needle.write_cur
    → IsReadable needle
    → IsReadable h
    → ((o : Option ℕ) × IsLeast (OccursAt m needle h) o
        × Reports (buffer_in_buffer k m needle h) 0 h.base needle.write_cur o)
      × ((o : Option ℕ) × IsGreatest (OccursAt m needle h) o
          × Reports (buffer_in_buffer k m needle h) search_reverse h.base needle.write_cur o)
unfolding buffer_in_buffer
buffer_in_buffer_lem k m needle h c pos rn rh =
    let n = needle.write_cur in
    let first = k.buffer_in_buffer_idx m needle h in
    let last = reverse_buffer_in_buffer_idx_simple m needle h in
    let (o, least, e) = c.finds_buffer m needle h pos rn rh in
    let (o', greatest, e') = reverse_buffer_in_buffer_idx_simple_lem m needle h pos rn rh in
    let P = OccursAt m needle h in
    let up = IsLeast-InRange P h.base h.write_cur n rh (λ i q. q.0) o least in
    let down = IsGreatest-InRange P h.base h.write_cur n rh (λ i q. q.0) o' greatest in
    (
      (o, least, query-Reports h.base h.write_cur n first last o pos up e),
      (o', greatest, query-Reports_reverse h.base h.write_cur n first last o' pos down e'),
    )

-- The form that the callers inside the library use.
pub byte_in_buffer-idx_find :
    (k : Kernels) (m : Mem) (needle : ℕ) (h : Buffer)
    → IsCorrect k
    → IsReadable h
    → (o : Option ℕ) × IsLeast (ByteAt m needle h) o
      × (byte_in_buffer k m needle h return_idx_find ≡ idx_or_invalid o)
unfolding byte_in_buffer dispatch
byte_in_buffer-idx_find k m needle h c r = c.finds_byte m needle h r
