-- ===== src/Tests/Dirs.antt =====
-- ListFiles and MakeDir over a system with one directory.
use tiny_base.Base.{
  ℕ, zero, suc, ◌+◌, ◌<◌, ◌≢◌, inl, inr, ◌≡◌, refl, ap, sym, ◌∙◌, subst, arith, Bool, true, false,
  none, some, List, [], ◌∷◌, ◌++◌, length, ==_refl,
}
use tiny_base.Mem.{Mem, bytes}
use tiny_base.Mem.Laws.{bytes-same}
use tiny_base.Memory.{buffer}
use tiny_base.Platform.File.{System, regular}
use tiny_base.Memory.Search.Portable.{portable-IsCorrect}
use tiny_base.Memory.Search.{portable}
use tiny_base.Platform.Path.{dot}
use tiny_base.Platform.Dir.{DirCalls, IterDir, d_type, d_name, list_files, make_dir, enoent}
use tiny_base.Platform.Dir.Make.{make_dir-absolute}
use tiny_base.Platform.Dir.Listing.{
  Entry, AllNonzero, ListsDirs, Gives, next_entry, list_files-next_entry,
}
use tiny_base.Tests.Data.{place, zeros}
use tiny_base.Tests.Files.{bytes-place}

-- The state is what is left of the entries.
abbrev one_dir : System
one_dir = record {
  State = List Entry;
  page_size = 4096;
  mmap = λ s m address size prot. (none, s);
  munmap = λ s base size. s;
  open_file = λ s m name opts mode. (3, s);
  close = λ s fd. s;
  unlink = λ s m name. (false, s);
  access = λ s m name. true;
  fstat = λ s fd. some (regular, 0);
  block_size = λ s fd. none;
  lseek = λ s fd pos. (pos, s);
  read = λ s m fd dst n. (0, s, m);
  write = λ s m fd src n. (n, s);
  copy_file_range = λ s src_fd dst_fd n. (n, s);
}

abbrev read_next : List Entry → Mem → (entry : ℕ) → Bool × List Entry × Mem
read_next [] m entry = (false, [], m)
read_next (e ∷ es) m entry = (true, es, place (d_type entry) (e.kind ∷ (e.name ++ (0 ∷ []))) m)

abbrev one_dir_calls : DirCalls one_dir
one_dir_calls = record {
  mkdir = λ s m name. (none, s);
  rmdir = λ s m name. (true, s);
  rename = λ s m src dst. (none, s);
  opendir = λ s m name. (7, s);
  readdir_r = λ s m dir entry. read_next s m entry;
  closedir = λ s dir. s;
  stat_is_dir = λ s m name. some true;
  getcwd = λ s m buf size. none;
}

abbrev AllNamed : List Entry → Type 0
AllNamed [] = Unit {0}
AllNamed (e ∷ es) = AllNonzero (e.name) × AllNamed es

abbrev Left : List Entry → ℕ → List Entry → Type 0
Left s dir es = (s ≡ es) × AllNamed es

length-name : (xs : List ℕ) → length (xs ++ (0 ∷ [])) ≡ suc (length xs)
length-name [] = refl
length-name (x ∷ xs) = ap suc (length-name xs)

named :
    (m : Mem) (entry : ℕ) (e : Entry)
    → bytes
        (place (d_type entry) (e.kind ∷ (e.name ++ (0 ∷ []))) m)
        (d_name entry)
        (suc (length (e.name)))
      ≡ e.name ++ (0 ∷ [])
named m entry e =
    let xs = e.name ++ (0 ∷ []) in
    let at : d_type entry + 1 ≡ d_name entry = omega arith in
    let whole = place (d_type entry) (e.kind ∷ xs) m in
    let outer =
      bytes-same (place (d_name entry) xs m) whole (d_name entry) (length xs)
        (λ y lo hi. rw at (ground arith)) in
    subst (λ n. bytes whole (d_name entry) n ≡ xs) (length-name (e.name))
      (outer ∙ bytes-place (d_name entry) xs m)

abbrev GivesNext : List Entry → Mem → ℕ → Entry → List Entry → Type 0
GivesNext s m entry e es =
    let (there, s', m') = read_next s m entry in
    (there ≡ true)
    × Left s' 0 es
    × (m' (d_type entry) ≡ e.kind)
    × (bytes m' (d_name entry) (suc (length (e.name))) ≡ e.name ++ (0 ∷ []))

next_named :
    (s : List Entry) (e : Entry) (es : List Entry) (m : Mem) (entry : ℕ)
    → s ≡ e ∷ es
    → AllNamed es
    → GivesNext s m entry e es
next_named s e es m entry eq all =
    let first : place (d_type entry) (e.kind ∷ (e.name ++ (0 ∷ []))) m (d_type entry) ≡ e.kind =
      rw (==_refl (d_type entry)) refl in
    subst (λ t. GivesNext t m entry e es) (sym eq) (refl, (refl, all), first, named m entry e)

one_dir-ListsDirs : ListsDirs one_dir_calls Left
one_dir-ListsDirs = record {
  names = λ here. here.1.0;
  last = λ m entry here. rw (here.0) refl;
  next = λ {s} {dir} {e} {es} m entry here. next_named s e es m entry (here.0) (here.1.1);
}

-- ".", "a" and "..".
abbrev home : List Entry
home =
    record { name = 46 ∷ []; kind = 4 }
    ∷ record { name = 97 ∷ []; kind = 8 }
    ∷ record { name = 46 ∷ 46 ∷ []; kind = 4 }
    ∷ []

abbrev fresh : IterDir
fresh = record {
  all_files_buf = 5000;
  all_files = buffer 5000 0 4095;
  filename = 0;
  dir = 0;
  entry = 9160;
  is_dir = false;
}

list_files-next_entry_example :
    Gives one_dir one_dir_calls Left
      (record fresh { dir = 7 })
      (next_entry home)
      (list_files one_dir one_dir_calls 4 home zeros fresh)
list_files-next_entry_example =
    list_files-next_entry one_dir_calls Left one_dir-ListsDirs home 4 home zeros fresh (omega arith)
      (refl, ((omega arith, tt), ((omega arith, tt), ((omega arith, (omega arith, tt)), tt))))

-- MakeDir of "/a/b", where "/a" does not exist: the working array is at 6000.
abbrev no_dirs : DirCalls one_dir
no_dirs = record one_dir_calls { mkdir = λ s m name. (some enoent, s) }

abbrev nested : Mem
nested = place 1000 (47 ∷ 97 ∷ 47 ∷ 98 ∷ []) zeros

nested-plain : (i : ℕ) → i < 4 → (nested (1000 + i) ≢ 0) × (nested (1000 + i) ≢ dot)
nested-plain zero lt = (omega arith, omega arith)
nested-plain (suc zero) lt = (omega arith, omega arith)
nested-plain (suc (suc zero)) lt = (omega arith, omega arith)
nested-plain (suc (suc (suc zero))) lt = (omega arith, omega arith)
nested-plain (suc (suc (suc (suc i)))) lt = absurd (omega arith)

make_dir-absolute_example :
    (m' : Mem) × (make_dir one_dir no_dirs portable 500 5 [] nested 1000 6000
      ≡ some (false, [], m'))
make_dir-absolute_example =
    make_dir-absolute no_dirs portable 500 5 [] [] nested 1000 4 6000 portable-IsCorrect
      (λ s m name e. refl) refl ((λ i l. (nested-plain i l).0), refl) (omega arith) (omega arith)
      (omega arith) refl (λ i l. (nested-plain i l).1) (omega arith) (omega arith) (omega arith)
      (inr (omega arith)) (inl (omega arith)) (inl (omega arith))
