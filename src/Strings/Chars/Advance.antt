-- ===== src/Strings/Chars/Advance.antt =====
-- AdvanceString steps over the first characters of a text; EatNextChar stays where it is.
use tiny_base.Base.{subst, ℕ, suc, ◌+◌, ◌≡◌, refl, sym, ap, ◌∙◌, arith, List, [], ◌∷◌, ◌++◌, length}
use tiny_base.Base.Word.{sub_usz}
use tiny_base.Mem.{Mem, bytes, IsBytes}
use tiny_base.Mem.Word.{load_bytes, write-load}
use tiny_base.Memory.{Buffer, IsWritable}
use tiny_base.Encoding.{Encoding}
use tiny_base.Encoding.Char.{get_next_char, get_next_char_size, adjust_endianness, read_bytes}
use tiny_base.Encoding.Char.Spec.{encoded}
use tiny_base.Encoding.Char.Bytes.{bytes-Holds}
use tiny_base.Strings.{String, encoded_all}
use tiny_base.Strings.Walk.{Shows, Shows-TextAt, TextAt-fits, TextAt-reads, TextAt-next}
use tiny_base.Strings.Chars.{advance_string, eat_next_char}

-- EatNextChar leaves memory as it is, the caller's pointer included. Where the character that would
-- stand at the place of the pointer is as long as the one that it leads to, as in ASCII and in
-- UTF-32, it returns what GetNextChar returns there.
pub eat_next_char-stays :
    (m : Mem) (src : ℕ) (enc : Encoding)
    → IsBytes m
    → get_next_char_size m src enc ≡ get_next_char_size m (load_bytes m src 8) enc
    → ((eat_next_char m src enc).0 ≡ get_next_char m (load_bytes m src 8) enc)
      × ((eat_next_char m src enc).1 ≡ m)
unfolding eat_next_char get_next_char
eat_next_char-stays m src enc all same = (
  ap (λ size. adjust_endianness (read_bytes m (load_bytes m src 8) size) enc) same,
  write-load m src 8 all,
)

-- One character less at the front, and the end where it was.
pub record Stepped (m : Mem) (s : String) (cs : List ℕ) (buf : Buffer) : Type 0 where
  pub shows : Shows m (record s { buf = buf }) cs
  pub same_end : buf.base + buf.write_cur ≡ s.base + s.write_cur
  pub same_region : buf.base + buf.size ≡ s.base + s.size
  pub writable : IsWritable buf

abbrev stepped : Buffer → ℕ → Buffer
stepped buf n = record {
  base = buf.base + n;
  write_cur = sub_usz buf.write_cur n;
  size = sub_usz buf.size n;
}

step :
    (m : Mem) (enc : Encoding) (buf : Buffer) (c : ℕ) (cs : List ℕ)
    → Shows m (record { buf = buf; enc = enc }) (c ∷ cs)
    → IsWritable buf
    → Stepped m (record { buf = buf; enc = enc }) cs (stepped buf (length (encoded enc c)))
step m enc buf c cs shows w =
    let s : String = record { buf = buf; enc = enc } in
    let t = Shows-TextAt m s (c ∷ cs) shows in
    let fits = TextAt-fits m s 0 c cs t in
    let next = TextAt-next m s 0 c cs t in
    let here : buf.base + (0 + length (encoded enc c)) ≡ buf.base + length (encoded enc c) =
      omega arith in
    let ends = next.ends in
    let len : sub_usz buf.write_cur (length (encoded enc c)) ≡ length (encoded_all enc cs) =
      omega (arith, fits, ends, w) in
    record {
      shows = record {
        readable = omega (arith, shows.readable, fits);
        text =
            ap (bytes m (buf.base + length (encoded enc c))) len
            ∙ bytes-Holds m (buf.base + length (encoded enc c)) (encoded_all enc cs)
                (rw here at next.holds);
        expressible = next.can;
      };
      same_end = omega (arith, fits, w);
      same_region = omega (arith, fits, w);
      writable = record { cursor = omega (arith, fits, w); region = omega (arith, fits, w) };
    }

advance_round :
    (m : Mem) (enc : Encoding) (num_chars n : ℕ) (buf : Buffer)
    → get_next_char_size m buf.base enc ≡ n
    → advance_string m enc (suc num_chars) buf ≡ advance_string m enc num_chars (stepped buf n)
unfolding advance_string
advance_round m enc num_chars n buf e = ap (λ n. advance_string m enc num_chars (stepped buf n)) e

advance_lem :
    (m : Mem) (enc : Encoding) (cs ds : List ℕ) (buf : Buffer)
    → Shows m (record { buf = buf; enc = enc }) (cs ++ ds)
    → IsWritable buf
    → Stepped m (record { buf = buf; enc = enc }) ds (advance_string m enc (length cs) buf)
unfolding advance_string
advance_lem m enc [] ds buf shows w = record {
  shows = shows;
  same_end = refl;
  same_region = refl;
  writable = w;
}
advance_lem m enc (c ∷ cs) ds buf shows w =
    let s : String = record { buf = buf; enc = enc } in
    let reads = TextAt-reads m s 0 c (cs ++ ds) (Shows-TextAt m s (c ∷ (cs ++ ds)) shows) in
    let e : buf.base + 0 ≡ buf.base = omega arith in
    let size = rw e at reads.next_size in
    let one = step m enc buf c (cs ++ ds) shows w in
    let later =
      advance_lem m enc cs ds (stepped buf (length (encoded enc c))) one.shows one.writable in
    subst (Stepped m s ds) (sym (advance_round m enc (length cs) (length (encoded enc c)) buf size))
      (record {
        shows = later.shows;
        same_end = later.same_end ∙ one.same_end;
        same_region = later.same_region ∙ one.same_region;
        writable = later.writable;
      })

-- AdvanceString of a writable string by the number of the first characters of its text leaves a
-- writable string that holds the rest of the text, in each of the six encodings. Its written part
-- and its room end where they did.
pub advance_string-Stepped :
    (m : Mem) (s : String) (cs ds : List ℕ)
    → Shows m s (cs ++ ds)
    → IsWritable s.buf
    → Stepped m s ds (advance_string m s.enc (length cs) s.buf)
advance_string-Stepped m s cs ds shows w = advance_lem m s.enc cs ds s.buf shows w
