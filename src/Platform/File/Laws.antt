-- ===== src/Platform/File/Laws.antt =====
-- Reading from a regular file, over what the system calls document.
use native.Mathlib.Decide.{dec_le, ℕ_discrete}
use tiny_base.Base.{
  subst, ap₂, ◌++◌, ℕ, ◌+◌, ◌-◌, ◌^◌, ◌<◌, ◌≤◌, ◌≡◌, ◌≢◌, ◌⊎◌, inl, inr, refl, sym, ◌∙◌, arith,
  Bool, true, false, ◌&&◌, some, List, length, slice, length-slice, leb, le→leb, lt→leb, ==_refl,
  ne→==,
}
use tiny_base.Base.Word.{u32, add_usz, sub_usz}
use tiny_base.Mem.{Mem, bytes, SameOutside}
use tiny_base.Mem.Laws.{bytes-append, bytes-outside}
use tiny_base.Memory.{Buffer, IsWritable}
use tiny_base.Memory.Edit.Spec.{Appended}
use tiny_base.Platform.File.{System, regular, file_size_of, seek_file, read_from_file}

-- At most so many bytes are read by one call on Linux.
abbrev pub read_limit : ℕ
read_limit = 0x7FFF_F000

-- What `read` documents of a place in a regular file that has `n` bytes from there on: it reads the
-- first of them, which may be fewer than were asked for, and moves the place behind them; or it
-- fails with -1, and then leaves the place unspecified. It writes nothing but the `n` bytes at `dst`.
abbrev pub ReadsSome :
    (sys : System) (holding : sys.State → ℕ → List ℕ → ℕ → Type 0) (m : Mem) (fd dst n : ℕ)
    (xs : List ℕ) (pos : ℕ)
    → ℕ × sys.State × Mem
    → Type 0
ReadsSome sys holding m fd dst n xs pos r =
    SameOutside dst n m r.2
    × (((r.0 ≤ n) × (bytes r.2 dst r.0 ≡ slice pos r.0 xs) × holding r.1 fd xs (pos + r.0))
        ⊎ ((r.0 ≡ 2 ^ 64 - 1) × (p : ℕ) × holding r.1 fd xs p))

-- What the system calls document of a descriptor of a regular file. `holding s fd xs pos` means that
-- `fd` is open for reading at `pos` on a regular file with the bytes `xs`.
pub record ReadsFiles (sys : System) (holding : sys.State → ℕ → List ℕ → ℕ → Type 0) : Type 0 where
  pub fstat_regular :
      (s : sys.State) (fd : ℕ) (xs : List ℕ) (pos : ℕ)
      → holding s fd xs pos
      → sys.fstat s fd ≡ some (regular, length xs)
  pub lseek_moves :
      (s : sys.State) (fd : ℕ) (xs : List ℕ) (pos new_pos : ℕ)
      → holding s fd xs pos
      → new_pos < 2 ^ 63
      → holding (sys.lseek s fd new_pos).1 fd xs new_pos
  pub read_copies :
      (s : sys.State) (m : Mem) (fd dst n : ℕ) (xs : List ℕ) (pos : ℕ)
      → holding s fd xs pos
      → pos + n ≤ length xs
      → n ≤ read_limit
      → ReadsSome sys holding m fd dst n xs pos (sys.read s m fd dst n)

module _ (sys : System) (s : sys.State) (m : Mem) (file : ℕ) (dst : Buffer) (amount start : ℕ) where
  abbrev after_seek : sys.State
  after_seek = (seek_file sys s file start).1

  abbrev reading : ℕ × sys.State × Mem
  reading = sys.read after_seek m (u32 file) (dst.base + dst.write_cur) amount

  read_done :
      add_usz start amount ≤ file_size_of sys s file
      → amount ≤ sub_usz dst.size dst.write_cur
      → reading.0 ≡ amount
      → read_from_file sys s m file dst amount start
        ≡ (true, record dst { write_cur = add_usz dst.write_cur amount }, reading.1, reading.2)
  unfolding read_from_file
  read_done le room all =
      rw
        (
          le→leb (add_usz start amount) (file_size_of sys s file) le,
          le→leb amount (sub_usz dst.size dst.write_cur) room,
          all,
          ==_refl amount,
        )
        refl

  read_short :
      add_usz start amount ≤ file_size_of sys s file
      → amount ≤ sub_usz dst.size dst.write_cur
      → reading.0 ≢ amount
      → read_from_file sys s m file dst amount start ≡ (false, dst, reading.1, reading.2)
  unfolding read_from_file
  read_short le room few =
      rw
        (
          le→leb (add_usz start amount) (file_size_of sys s file) le,
          le→leb amount (sub_usz dst.size dst.write_cur) room,
          ne→== _ amount few,
        )
        refl

  read_refused :
      (file_size_of sys s file < add_usz start amount) ⊎ (sub_usz dst.size dst.write_cur < amount)
      → read_from_file sys s m file dst amount start ≡ (false, dst, s, m)
  unfolding read_from_file
  read_refused (inl l) = rw (lt→leb (add_usz start amount) (file_size_of sys s file) l) refl
  read_refused (inr r) =
      rw
        (
          lt→leb amount (sub_usz dst.size dst.write_cur) r,
          and_false (leb (add_usz start amount) (file_size_of sys s file)),
        )
        refl
    where
      and_false : (b : Bool) → (b && false) ≡ false
      and_false true = refl
      and_false false = refl

pub file_size :
    (sys : System) (s : sys.State) (file : ℕ) (xs : List ℕ)
    → sys.fstat s (u32 file) ≡ some (regular, length xs)
    → file_size_of sys s file ≡ length xs
unfolding file_size_of
file_size sys s file xs e = rw (file_size_of, e) refl

-- Bytes that were put behind the cursor.
appended :
    (m m' : Mem) (dst : Buffer) (n : ℕ) (ys : List ℕ)
    → IsWritable dst
    → dst.write_cur + n ≤ dst.size
    → length ys ≡ n
    → bytes m' (dst.base + dst.write_cur) n ≡ ys
    → SameOutside (dst.base + dst.write_cur) n m m'
    → Appended m dst ys (true, record dst { write_cur = add_usz dst.write_cur n }, m')
appended m m' dst n ys w fits len copied frame =
    let cursor : add_usz dst.write_cur n ≡ dst.write_cur + n = omega (arith, w) in
    rw cursor (record {
      fits = omega (arith, len);
      success = refl;
      same_base = refl;
      same_size = refl;
      cursor = omega (arith, len);
      value =
          bytes-append m' dst.base dst.write_cur n
          ∙ ap₂ ◌++◌
              (bytes-outside (dst.base + dst.write_cur) n dst.base dst.write_cur frame
                (inr (omega arith)))
              copied;
      frame = rw len frame;
    })

-- The call of `read` behind the call of `lseek`.
abbrev pub read_at :
    (sys : System) → sys.State → Mem → (fd : ℕ) → Buffer → (amount start : ℕ) → ℕ × sys.State × Mem
read_at sys s m fd dst amount start =
    sys.read (sys.lseek s fd start).1 m fd (dst.base + dst.write_cur) amount

-- The bytes from the place on are appended where `read` gives all of them. Where it does not,
-- bytes behind the cursor may be written and the place is moved; and where the bytes are not there
-- or do not fit, nothing happens.
abbrev pub ReadsPart :
    (sys : System) (holding : sys.State → ℕ → List ℕ → ℕ → Type 0) (s : sys.State) (m : Mem)
    (fd : ℕ) (xs : List ℕ) (dst : Buffer) (amount start : ℕ)
    → Bool × Buffer × sys.State × Mem
    → Type 0
ReadsPart sys holding s m fd xs dst amount start r =
    ((start + amount ≤ length xs)
      × (dst.write_cur + amount ≤ dst.size)
      × ((((read_at sys s m fd dst amount start).0 ≡ amount)
            × Appended m dst (slice start amount xs) (r.0, r.1, r.3)
            × holding r.2 fd xs (start + amount))
          ⊎ (((read_at sys s m fd dst amount start).0 ≢ amount)
              × (r.0 ≡ false)
              × (r.1 ≡ dst)
              × SameOutside (dst.base + dst.write_cur) amount m r.3
              × (p : ℕ) × holding r.2 fd xs p)))
    ⊎ (((length xs < start + amount) ⊎ (dst.size < dst.write_cur + amount))
        × (r.0 ≡ false)
        × (r.1 ≡ dst)
        × (r.2 ≡ s)
        × (r.3 ≡ m))

seek_holding :
    (sys : System) (holding : sys.State → ℕ → List ℕ → ℕ → Type 0) (s : sys.State) (file : ℕ)
    (xs : List ℕ) (pos start : ℕ)
    → ReadsFiles sys holding
    → holding s (u32 file) xs pos
    → start < 2 ^ 63
    → holding (seek_file sys s file start).1 (u32 file) xs start
unfolding seek_file
seek_holding sys holding s file xs pos start laws open_at small =
    laws.lseek_moves s (u32 file) xs pos start open_at small

-- With system calls that do what they document, ReadFromFile of at most 2,147,479,552 bytes from an
-- open regular file, with a place that does not wrap, into a writable buffer. Where the file has
-- that many bytes from the place on, they fit behind the cursor and `read` gives all of them, it
-- appends them to the buffer and returns true, and the file is then read behind them. Where `read`
-- gives fewer or fails, it returns false with the buffer as it was, but the room for the bytes may
-- have been written and the file is then read at some other place. Where the bytes are not there or
-- do not fit, it returns false, with the buffer, the system and memory as they were.
pub read_from_file-Appended :
    (sys : System) (holding : sys.State → ℕ → List ℕ → ℕ → Type 0) (s : sys.State) (m : Mem)
    (file : ℕ) (xs : List ℕ) (pos : ℕ) (dst : Buffer) (amount start : ℕ)
    → ReadsFiles sys holding
    → holding s (u32 file) xs pos
    → length xs < 2 ^ 63
    → amount ≤ read_limit
    → start + amount < 2 ^ 64
    → IsWritable dst
    → ReadsPart sys holding s m
        (u32 file)
        xs
        dst
        amount
        start
        (read_from_file sys s m file dst amount start)
unfolding seek_file
read_from_file-Appended sys holding s m file xs pos dst amount start laws open_at small limit word
      w =
    let size = file_size sys s file xs (laws.fstat_regular s (u32 file) xs pos open_at) in
    let sum : add_usz start amount ≡ start + amount = omega arith in
    let room : sub_usz dst.size dst.write_cur ≡ dst.size - dst.write_cur = omega (arith, w) in
    let part = ReadsPart sys holding s m (u32 file) xs dst amount start in
    elim (dec_le (start + amount) (length xs)) [
      | no few ↦
          subst part
            (sym (read_refused sys s m file dst amount start (inl (omega (arith, size, sum)))))
            (inr (inl (omega arith), refl, refl, refl, refl))
      | yes enough ↦ elim (dec_le (dst.write_cur + amount) dst.size) [
        | no over ↦
            subst part
              (sym (read_refused sys s m file dst amount start (inr (omega (arith, room, w)))))
              (inr (inr (omega arith), refl, refl, refl, refl))
        | yes fits ↦
            let s1 = (seek_file sys s file start).1 in
            let at_start =
              seek_holding sys holding s file xs pos start laws open_at (omega arith) in
            let (frame, got) =
              laws.read_copies s1 m (u32 file) (dst.base + dst.write_cur) amount xs start at_start
                enough limit in
            let asked : add_usz start amount ≤ file_size_of sys s file = omega (arith, size, sum) in
            let space : amount ≤ sub_usz dst.size dst.write_cur = omega (arith, room, w) in
            elim (ℕ_discrete (read_at sys s m (u32 file) dst amount start).0 amount) [
              | yes all ↦
                  let (copied, at_end) = full all got in
                  subst part (sym (read_done sys s m file dst amount start asked space all)) (
                    inl (
                      enough,
                      fits,
                      inl (
                        all,
                        appended m (sys.read s1 m (u32 file) (dst.base + dst.write_cur) amount).2
                            dst amount (slice start amount xs) w fits
                            (length-slice start amount xs enough) copied frame,
                        at_end,
                      ),
                    ))
              | no few ↦
                  subst part (sym (read_short sys s m file dst amount start asked space few)) (
                    let (p, left) = somewhere got in
                    inl (enough, fits, inr (few, refl, refl, frame, p, left)))
            ]
      ]
    ]
  where
    Got : Type 0
    Got =
        (((read_at sys s m (u32 file) dst amount start).0 ≤ amount)
          × (bytes (read_at sys s m (u32 file) dst amount start).2 (dst.base + dst.write_cur)
                (read_at sys s m (u32 file) dst amount start).0
              ≡ slice start (read_at sys s m (u32 file) dst amount start).0 xs)
          × holding (read_at sys s m (u32 file) dst amount start).1 (u32 file) xs
              (start + (read_at sys s m (u32 file) dst amount start).0))
        ⊎ (((read_at sys s m (u32 file) dst amount start).0 ≡ 2 ^ 64 - 1)
            × (p : ℕ) × holding (read_at sys s m (u32 file) dst amount start).1 (u32 file) xs p)

    full :
        (read_at sys s m (u32 file) dst amount start).0 ≡ amount
        → Got
        → (bytes (read_at sys s m (u32 file) dst amount start).2 (dst.base + dst.write_cur) amount
            ≡ slice start amount xs)
          × holding (read_at sys s m (u32 file) dst amount start).1 (u32 file) xs (start + amount)
    full all (inl (le, copied, at_end)) = (rw all at copied, rw all at at_end)
    full all (inr (failed, _, _)) = absurd (omega (arith, all, failed))

    somewhere :
        Got → (p : ℕ) × holding (read_at sys s m (u32 file) dst amount start).1 (u32 file) xs p
    somewhere (inl (le, copied, at_end)) =
        (start + (read_at sys s m (u32 file) dst amount start).0, at_end)
    somewhere (inr (failed, p, h)) = (p, h)
