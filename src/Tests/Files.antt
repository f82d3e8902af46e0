-- ===== src/Tests/Files.antt =====
-- ReadFromFile and ReadEntireFile over a system with one file.
use tiny_base.Base.{
  ℕ, ◌+◌, ◌≤◌, ◌≡◌, ==_refl, refl, ap, ap₂, inl, inr, arith, true, false, some, List, [], ◌∷◌,
  length, slice, length-slice, ◌∙◌,
}
use tiny_base.Mem.{Mem, bytes, SameOutside}
use tiny_base.Mem.Laws.{bytes-same}
use tiny_base.Memory.{Buffer, buffer}
use tiny_base.Platform.File.{System, regular, read_from_file, read_entire_file}
use tiny_base.Platform.File.Laws.{ReadsFiles, ReadsPart, read_from_file-Appended}
use tiny_base.Platform.File.Whole.{WholeOrNone, read_entire_file-contents}
use tiny_base.Tests.Data.{place, zeros}

-- The bytes of the file and the place where it is read. Blocks of memory stand at 8192.
abbrev one_file : System
one_file = record {
  State = List ℕ × ℕ;
  page_size = 4096;
  mmap = λ s m address size prot. (some (8192, m), s);
  munmap = λ s base size. s;
  open_file = λ s m name opts mode. (3, s);
  close = λ s fd. s;
  unlink = λ s m name. (false, s);
  access = λ s m name. true;
  fstat = λ s fd. some (regular, length s.0);
  block_size = λ s fd. some 0;
  lseek = λ s fd pos. (pos, (s.0, pos));
  read = λ s m fd dst n. (n, (s.0, s.1 + n), place dst (slice s.1 n s.0) m);
  write = λ s m fd src n. (n, s);
  copy_file_range = λ s src_fd dst_fd n. (n, s);
}

abbrev HoldingOne : List ℕ × ℕ → ℕ → List ℕ → ℕ → Type 0
HoldingOne s fd xs pos = (s.0 ≡ xs) × (s.1 ≡ pos)

place-SameOutside : (a : ℕ) (xs : List ℕ) (m : Mem) → SameOutside a (length xs) m (place a xs m)
place-SameOutside a [] m x out = refl
place-SameOutside a (y ∷ ys) m x (inl l) =
    ground (arith, place-SameOutside (a + 1) ys m x (inl (omega arith)))
place-SameOutside a (y ∷ ys) m x (inr r) =
    ground (arith, place-SameOutside (a + 1) ys m x (inr (omega arith)))

pub bytes-place : (a : ℕ) (xs : List ℕ) (m : Mem) → bytes (place a xs m) a (length xs) ≡ xs
bytes-place a [] m = refl
bytes-place a (x ∷ xs) m = ap₂ ◌∷◌ (rw (==_refl a) refl) (
    bytes-same (place (a + 1) xs m) (place a (x ∷ xs) m) (a + 1) (length xs)
      (λ y lo hi. ground arith)
    ∙ bytes-place (a + 1) xs m)

reads_slice :
    (m : Mem) (dst n pos : ℕ) (xs : List ℕ)
    → pos + n ≤ length xs
    → (bytes (place dst (slice pos n xs) m) dst n ≡ slice pos n xs)
      × SameOutside dst n m (place dst (slice pos n xs) m)
reads_slice m dst n pos xs le =
    let len = length-slice pos n xs le in
    (
      rw len at (bytes-place dst (slice pos n xs) m),
      rw len at (place-SameOutside dst (slice pos n xs) m),
    )

one_file-ReadsFiles : ReadsFiles one_file HoldingOne
one_file-ReadsFiles = record {
  fstat_regular = λ s fd xs pos h. ap (λ ys. some (regular, length ys)) h.0;
  lseek_moves = λ s fd xs pos new_pos h small. (h.0, refl);
  read_copies = λ s m fd dst n xs pos h le limit.
      let (copied, frame) = reads_slice m dst n pos xs le in
      rw (h.0, h.1) (frame, inl (omega arith, copied, (refl, refl)));
}

abbrev letters : List ℕ
letters = 104 ∷ 101 ∷ 108 ∷ 108 ∷ 111 ∷ []

abbrev eight : Buffer
eight = buffer 100 2 8

read_from_file-Appended_example :
    ReadsPart one_file HoldingOne
      (letters, 0)
      zeros
      3
      letters
      eight
      3
      2
      (read_from_file one_file (letters, 0) zeros 3 eight 3 2)
read_from_file-Appended_example =
    read_from_file-Appended one_file HoldingOne (letters, 0) zeros 3 letters 0 eight 3 2
      one_file-ReadsFiles (refl, refl) (omega arith) (omega arith) (omega arith) (omega arith)

read_entire_file-contents_example :
    WholeOrNone one_file HoldingOne
      (letters, 0)
      zeros
      3
      8192
      letters
      (read_entire_file one_file (letters, 0) zeros 3)
read_entire_file-contents_example =
    read_entire_file-contents one_file HoldingOne (letters, 0) (letters, 0) zeros zeros 3 8192
      letters 0 one_file-ReadsFiles refl (refl, refl) (omega arith) (omega arith) refl (refl, refl)
      (omega arith) (omega arith)
