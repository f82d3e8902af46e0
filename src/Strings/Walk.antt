-- ===== src/Strings/Walk.antt =====
-- What the loops over a text share: at index `idx` of a string stand the characters that are left.
use tiny_base.Base.{
  ℕ, ◌+◌, ◌≤◌, ◌<◌, ◌≡◌, ◌^◌, sym, ap, ◌∙◌, arith, List, [], ◌∷◌, length, length-append,
}
use tiny_base.Base.Word.{add_usz}
use tiny_base.Mem.{Mem}
use tiny_base.Mem.Laws.{length-bytes}
use tiny_base.Memory.{contents, IsReadable}
use tiny_base.Encoding.Char.Spec.{encoded}
use tiny_base.Encoding.Char.Bytes.{Holds, Holds-bytes, Holds-append}
use tiny_base.Encoding.Char.Size.{length-encoded_pos}
use tiny_base.Encoding.Char.Reads.{ReadsAs}
use tiny_base.Encoding.Char.Laws.{encoded-ReadsAs}
use tiny_base.Strings.{String, encoded_all}
use tiny_base.Strings.Transcode.Spec.{AllCan}

-- The text is what the string holds, in its encoding.
pub record Shows (m : Mem) (s : String) (cs : List ℕ) : Type 0 where
  pub readable : IsReadable s.buf
  pub text : contents m s.buf ≡ encoded_all s.enc cs
  pub expressible : AllCan s.enc cs

pub record TextAt (m : Mem) (s : String) (idx : ℕ) (cs : List ℕ) : Type 0 where
  pub holds : Holds m (s.base + idx) (encoded_all s.enc cs)
  pub ends : idx + length (encoded_all s.enc cs) ≡ s.write_cur
  pub can : AllCan s.enc cs
  pub region : s.base + s.write_cur < 2 ^ 64

module _ (m : Mem) (s : String) where
  pub Shows-length : (cs : List ℕ) → Shows m s cs → s.write_cur ≡ length (encoded_all s.enc cs)
  Shows-length cs shows = sym (length-bytes m s.base s.write_cur) ∙ ap length shows.text

  pub Shows-TextAt : (cs : List ℕ) → Shows m s cs → TextAt m s 0 cs
  Shows-TextAt cs shows =
      let len = Shows-length cs shows in
      let e : s.base + 0 ≡ s.base = omega arith in
      record {
        holds = rw e (Holds-bytes m s.base (encoded_all s.enc cs) (rw (← len) shows.text));
        ends = omega (arith, len);
        can = shows.expressible;
        region = shows.readable;
      }

  pub TextAt-end : (idx : ℕ) → TextAt m s idx [] → s.write_cur ≤ idx
  TextAt-end idx t = omega (arith, t.ends)

  -- At a character: it is read where it stands, and the others stand behind it.
  module _ (idx c : ℕ) (cs : List ℕ) (t : TextAt m s idx (c ∷ cs)) where
    len :
        length (encoded_all s.enc (c ∷ cs))
        ≡ length (encoded s.enc c) + length (encoded_all s.enc cs)
    len = length-append (encoded s.enc c) (encoded_all s.enc cs)

    parts :
        Holds m (s.base + idx) (encoded s.enc c)
        × Holds m (s.base + idx + length (encoded s.enc c)) (encoded_all s.enc cs)
    parts = Holds-append m (s.base + idx) (encoded s.enc c) (encoded_all s.enc cs) t.holds

    pub TextAt-more : idx < s.write_cur
    TextAt-more = omega (arith, len, t.ends, length-encoded_pos s.enc c)

    pub TextAt-fits : idx + length (encoded s.enc c) ≤ s.write_cur
    TextAt-fits = omega (arith, len, t.ends)

    pub TextAt-here : Holds m (s.base + idx) (encoded s.enc c)
    TextAt-here = parts.0

    pub TextAt-reads : ReadsAs m (s.base + idx) s.enc c
    TextAt-reads = encoded-ReadsAs m (s.base + idx) s.enc c t.can.0 parts.0

    pub TextAt-step : add_usz idx (length (encoded s.enc c)) ≡ idx + length (encoded s.enc c)
    TextAt-step = omega (arith, len, t.ends, t.region)

    pub TextAt-next : TextAt m s (idx + length (encoded s.enc c)) cs
    TextAt-next =
        let e : s.base + (idx + length (encoded s.enc c))
            ≡ s.base + idx + length (encoded s.enc c) =
          omega arith in
        record {
          holds = rw e parts.1;
          ends = omega (arith, len, t.ends);
          can = t.can.1;
          region = t.region;
        }
