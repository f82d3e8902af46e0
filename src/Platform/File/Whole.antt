-- ===== src/Platform/File/Whole.antt =====
-- ReadEntireFile reads a regular file into a new block of memory.
use tiny_base.Base.{
  subst, ℕ, ◌+◌, ◌^◌, ◌<◌, ◌≤◌, ◌≡◌, ◌≢◌, ◌⊎◌, Bool, false, inl, inr, refl, sym, ap, ◌∙◌, arith,
  true, some, List, length, slice-length, ◌==◌, ne→==, if◌then◌else◌,
}
use tiny_base.Base.Word.{u32}
use tiny_base.Mem.{Mem, SameOutside}
use tiny_base.Memory.{Buffer, buffer, contents, IsWritable}
use tiny_base.Memory.Edit.Laws.{Appended-IsWritable}
use tiny_base.Platform.File.{
  System, file_size_of, get_memory, protection, align, read_from_file, read_entire_file,
  free_memory,
}
use tiny_base.Platform.File.Laws.{
  ReadsFiles, ReadsPart, read_limit, read_from_file-Appended, file_size,
}

-- The block that GetMemory makes of what mmap gives.
block : (sys : System) → (base size : ℕ) → Buffer
block sys base size = buffer base 0 (if sys.page_size == 0 then size else align size sys.page_size)

module _ (sys : System) (s : sys.State) (m : Mem) (base size : ℕ) (s1 : sys.State) (m1 : Mem)
    (mapped : sys.mmap s m 0 size 3 ≡ (some (base, m1), s1)) where
  got_memory : get_memory sys s m size 0 0x2 ≡ (block sys base size, s1, m1)
  unfolding get_memory protection block
  got_memory = rw (get_memory, mapped) (ap (λ r. (block sys base size, r.1, m1)) mapped)

file_size_is :
    (sys : System) (holding : sys.State → ℕ → List ℕ → ℕ → Type 0) (s : sys.State) (file : ℕ)
    (xs : List ℕ) (pos : ℕ)
    → ReadsFiles sys holding
    → holding s (u32 file) xs pos
    → file_size_of sys s file ≡ length xs
file_size_is sys holding s file xs pos laws open_at =
    file_size sys s file xs (laws.fstat_regular s (u32 file) xs pos open_at)

align_page :
    (size : ℕ)
    → 0 < size
    → size < 2 ^ 63
    → (size ≤ align size 4096) × (align size 4096 ≤ size + 4095)
unfolding align
align_page size pos small = (omega arith, omega arith)

read_done :
    (sys : System) (s : sys.State) (m : Mem) (file : ℕ) (mem mem' : Buffer) (s1 s2 : sys.State)
    (m1 m2 : Mem)
    → get_memory sys s m (file_size_of sys s file) 0 0x2 ≡ (mem, s1, m1)
    → mem.base ≢ 0
    → read_from_file sys s1 m1 file mem (file_size_of sys s file) 0 ≡ (true, mem', s2, m2)
    → read_entire_file sys s m file ≡ (record mem' { write_cur = file_size_of sys s file }, s2, m2)
unfolding read_entire_file
read_done sys s m file mem mem' s1 s2 m1 m2 got some_base done =
    rw (read_entire_file, got, ne→== mem.base 0 some_base, done) refl

read_failed :
    (sys : System) (s : sys.State) (m : Mem) (file : ℕ) (mem mem' : Buffer) (s1 s2 : sys.State)
    (m1 m2 : Mem)
    → get_memory sys s m (file_size_of sys s file) 0 0x2 ≡ (mem, s1, m1)
    → mem.base ≢ 0
    → read_from_file sys s1 m1 file mem (file_size_of sys s file) 0 ≡ (false, mem', s2, m2)
    → read_entire_file sys s m file ≡ (buffer 0 0 0, sys.munmap s2 mem'.base mem'.size, m2)
unfolding read_entire_file free_memory
read_failed sys s m file mem mem' s1 s2 m1 m2 got some_base failed =
    rw (read_entire_file, got, ne→== mem.base 0 some_base, failed) refl

-- A buffer with all the bytes of the file, which is then read to its end.
abbrev pub HoldsFile :
    (sys : System) (holding : sys.State → ℕ → List ℕ → ℕ → Type 0) (fd : ℕ) (xs : List ℕ)
    → Buffer × sys.State × Mem
    → Type 0
HoldsFile sys holding fd xs r =
    (contents r.2 r.0 ≡ xs) × IsWritable r.0 × holding r.1 fd xs (length xs)

-- The null buffer, where the block has been given back to the system in a state in which the file
-- may be at any place, and no byte outside the block was written.
abbrev pub GivesBack :
    (sys : System) (holding : sys.State → ℕ → List ℕ → ℕ → Type 0) (m : Mem) (fd base : ℕ)
    (xs : List ℕ)
    → Buffer × sys.State × Mem
    → Type 0
GivesBack sys holding m fd base xs r =
    (r.0 ≡ buffer 0 0 0)
    × SameOutside base (length xs) m r.2
    × (s : sys.State) × (r.1 ≡ sys.munmap s base (align (length xs) 4096))
    × (p : ℕ) × holding s fd xs p

-- By what the call of `read` into the block gives.
abbrev pub WholeOrNone :
    (sys : System) (holding : sys.State → ℕ → List ℕ → ℕ → Type 0) (s : sys.State) (m : Mem)
    (fd base : ℕ) (xs : List ℕ)
    → Buffer × sys.State × Mem
    → Type 0
WholeOrNone sys holding s m fd base xs r =
    let got = (sys.read (sys.lseek s fd 0).1 m fd base (length xs)).0 in
    ((got ≡ length xs) × HoldsFile sys holding fd xs r)
    ⊎ ((got ≢ length xs) × GivesBack sys holding m fd base xs r)

-- ReadEntireFile, where mmap gives a block that is not null and lies in the address space, and
-- leaves the open file alone, over system calls that do what they document and with pages of 4096
-- bytes, of an open regular file that is not empty and has at most 2,147,479,552 bytes. Where
-- `read` gives all the bytes of the file, it returns a buffer that holds them. Where `read` gives
-- fewer or fails, it returns the null buffer, gives the block back to the system and changes no byte
-- outside it.
pub read_entire_file-contents :
    (sys : System) (holding : sys.State → ℕ → List ℕ → ℕ → Type 0) (s s1 : sys.State) (m m1 : Mem)
    (file base : ℕ) (xs : List ℕ) (pos : ℕ)
    → ReadsFiles sys holding
    → sys.page_size ≡ 4096
    → holding s (u32 file) xs pos
    → 0 < length xs
    → length xs ≤ read_limit
    → sys.mmap s m 0 (length xs) 3 ≡ (some (base, m1), s1)
    → holding s1 (u32 file) xs pos
    → 0 < base
    → base + length xs + 4095 < 2 ^ 64
    → WholeOrNone sys holding s1 m1 (u32 file) base xs (read_entire_file sys s m file)
unfolding block
read_entire_file-contents sys holding s s1 m m1 file base xs pos laws page open_at bytes_there limit
      mapped open_after not_null region =
    by_part (
      read_from_file-Appended sys holding s1 m1 file xs pos mem (length xs) 0 laws open_after
        (omega arith) limit (omega arith) w)
  where
    size : file_size_of sys s file ≡ length xs
    size = file_size_is sys holding s file xs pos laws open_at

    mem : Buffer
    mem = block sys base (length xs)

    w : IsWritable mem
    w =
        let (low, high) = align_page (length xs) bytes_there (omega arith) in
        rw page (record { cursor = omega arith; region = omega (arith, high) })

    r : Bool × Buffer × sys.State × Mem
    r = read_from_file sys s1 m1 file mem (length xs) 0

    got : get_memory sys s m (file_size_of sys s file) 0 0x2 ≡ (mem, s1, m1)
    got = rw size (got_memory sys s m base (length xs) s1 m1 mapped)

    start : base + 0 ≡ base
    start = omega arith

    read_to : ℕ → ℕ × sys.State × Mem
    read_to a = sys.read (sys.lseek s1 (u32 file) 0).1 m1 (u32 file) a (length xs)

    fits : length xs ≤ mem.size
    fits = let (low, high) = align_page (length xs) bytes_there (omega arith) in rw page low

    by_part :
        ReadsPart sys holding s1 m1 (u32 file) xs mem (length xs) 0 r
        → WholeOrNone sys holding s1 m1 (u32 file) base xs (read_entire_file sys s m file)
    by_part (inl (_, _, inl (all, a, at_end))) =
        let cursor : r.1.write_cur ≡ length xs =
          a.cursor ∙ ap (λ ys. 0 + length ys) (slice-length xs) ∙ omega arith in
        let none_before : 0 + length xs ≡ length xs = omega arith in
        let done = ap (λ b. (b, r.1, r.2, r.3)) a.success in
        let whole =
          read_done sys s m file mem r.1 s1 r.2 m1 r.3 got (λ e. absurd (omega (arith, e)))
            (rw size done) in
        inl (
          subst (λ a. (read_to a).0 ≡ length xs) start all,
          subst (HoldsFile sys holding (u32 file) xs) (sym whole) (
              subst
                (λ n. HoldsFile sys holding (u32 file) xs (record r.1 { write_cur = n }, r.2, r.3))
                (cursor ∙ sym size)
                (a.value ∙ slice-length xs, Appended-IsWritable w a, rw none_before at at_end)),
        )
    by_part (inl (_, _, inr (few, failed, same_buf, frame, p, left))) =
        let done : r ≡ (false, mem, r.2, r.3) =
          ap (λ b. (b, r.1, r.2, r.3)) failed ∙ ap (λ b. (false, b, r.2, r.3)) same_buf in
        let none' =
          read_failed sys s m file mem mem s1 r.2 m1 r.3 got (λ e. absurd (omega (arith, e)))
            (rw size done) in
        inr (
          subst (λ a. (read_to a).0 ≢ length xs) start few,
          subst (GivesBack sys holding m1 (u32 file) base xs) (sym none') (
            refl,
            subst (λ a. SameOutside a (length xs) m1 r.3) start frame,
            r.2,
            rw page refl,
            p,
            left,
          ),
        )
    by_part (inr (inl few, _, _, _, _)) = absurd (omega arith)
    by_part (inr (inr full, _, _, _, _)) = absurd (omega (arith, fits, full))
