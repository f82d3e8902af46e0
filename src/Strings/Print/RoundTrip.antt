-- ===== src/Strings/Print/RoundTrip.antt =====
-- A number that is written into an empty string is read back.
use tiny_base.Base.{
  ℕ, ◌^◌, ◌<◌, ◌≤◌, ◌≡◌, inl, inr, refl, ap, ◌∙◌, arith, Bool, true, Option, some, List, ◌++◌,
}
use tiny_base.Mem.{Mem}
use tiny_base.Memory.{Buffer, contents, IsReadable, IsWritable}
use tiny_base.Strings.{String, encoded_all}
use tiny_base.Strings.Number.{string_to_uint}
use tiny_base.Strings.Number.Laws.{word_or_max, string_to_uint_text}
use tiny_base.Strings.Print.{append_uint_to_string}
use tiny_base.Strings.Print.Decimal.{decimal, value-decimal}
use tiny_base.Strings.Print.Ends.{Printed}
use tiny_base.Strings.Print.Unsigned.{append_uint_to_string-Printed}
use tiny_base.Strings.Print.Readable.{Readable, decimal-Readable}

-- An empty string with room for the text holds it after the call.
module _ (local : ℕ) (m : Mem) (dst : String) (text : List ℕ)
    (result : Option (Bool × Buffer × Mem)) (w : IsWritable dst.buf) (empty : dst.write_cur ≡ 0)
    (room : 80 ≤ dst.size) (readable : Readable dst.enc text) where
  record Holding : Type 0 where
    buf : Buffer
    mem : Mem
    runs : result ≡ some (true, buf, mem)
    region : IsReadable buf
    value : contents mem buf ≡ encoded_all dst.enc text

  nothing_before :
      (m' : Mem) → contents m' dst.buf ++ encoded_all dst.enc text ≡ encoded_all dst.enc text
  nothing_before m' = rw empty refl

  holding : Printed local m dst text result → Holding
  holding (m', r, frame, runs, inl a) = record {
    buf = r.1;
    mem = r.2;
    runs = runs ∙ ap (λ b. some (b, r.1, r.2)) a.success;
    region =
        let base = a.same_base in
        let cursor = a.cursor in let fits = a.fits in omega (arith, base, cursor, fits, w);
    value = a.value ∙ nothing_before m';
  }
  holding (m', r, frame, runs, inr b) =
      let full = b.full in absurd (omega (arith, readable.size, full))

-- AppendUIntToString of a number below 2^63 into an empty writable string of at least 80 bytes
-- returns true, and StringToUInt of the string then returns the number, in each of the six
-- encodings; both end within 21 rounds.
pub string_to_uint-append_uint_to_string :
    (fuel local : ℕ) (m : Mem) (integer : ℕ) (dst : String)
    → 21 ≤ fuel
    → integer < 2 ^ 63
    → IsWritable dst.buf
    → dst.write_cur ≡ 0
    → 80 ≤ dst.size
    → (buf : Buffer) × (m' : Mem) × (append_uint_to_string fuel local m integer dst
        ≡ some (true, buf, m'))
      × (string_to_uint fuel m' (record dst { buf = buf }) ≡ some integer)
unfolding word_or_max
string_to_uint-append_uint_to_string fuel local m integer dst enough small w empty room =
    let (readable, _) = decimal-Readable dst.enc integer (omega arith) in
    let h =
      holding local m dst (decimal integer) (append_uint_to_string fuel local m integer dst) w empty
        room readable
        (append_uint_to_string-Printed fuel local m integer dst (omega arith) small w) in
    let short = readable.short in
    (
      h.buf,
      h.mem,
      h.runs,
      string_to_uint_text fuel h.mem (record dst { buf = h.buf }) (decimal integer)
            (omega (arith, short)) h.region h.value readable.can
          ∙ rw (value-decimal integer (omega arith)) (ap some (omega arith)),
    )
