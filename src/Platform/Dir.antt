-- ===== src/Platform/Dir.antt =====
-- The functions of src/tinybase-platform-linux.c on directories, over the system calls that they
-- make. `none` means that the fuel ran out.
pub mod Listing
pub mod Rooted
pub mod Absolute
pub mod Make
pub mod Leading
pub mod Slashes
pub mod Remove
use tiny_base.Base.{
  ℕ, zero, suc, ◌+◌, ◌-◌, ◌*◌, ◌^◌, Bool, true, false, not, ◌&&◌, ◌||◌, Option, none, some, bit_and,
  ltb, ◌==◌, if◌then◌else◌,
}
use tiny_base.Base.Word.{add_usz}
use tiny_base.Mem.{Mem, store8, memset}
use tiny_base.Memory.{Buffer, invalid_idx, return_idx_find}
use tiny_base.Memory.Search.{Kernels}
use tiny_base.Memory.Edit.{advance_buffer, clear_buffer}
use tiny_base.Encoding.{utf8}
use tiny_base.Strings.{String}
use tiny_base.Strings.Length.{strlen}
use tiny_base.Strings.Append.{append_string_to_string}
use tiny_base.Strings.Chars.{char_in_string}
use tiny_base.Platform.Path.{
  max_path_size, path, path_c_string, slash, dot, append_part, append_array_to_path,
  append_path_to_path, move_up_path,
}
use tiny_base.Platform.File.{System, remove_file, has_bit}
use tiny_base.Platform.File.Open.{duplicate_file}

-- `errno` behind a call that failed.
pub data Errno : Type 0 where
  enoent eexist exdev other_error : Errno

-- The calls on directories. `mkdir` and `rename` give `none` on success. `readdir_r` writes the
-- next entry to `entry` and tells whether there was one. `stat_is_dir` gives what
-- S_ISDIR tells of the mode.
pub record DirCalls (sys : System) : Type 0 where
  pub mkdir : sys.State → Mem → (name : ℕ) → Option Errno × sys.State
  pub rmdir : sys.State → Mem → (name : ℕ) → Bool × sys.State
  pub rename : sys.State → Mem → (src dst : ℕ) → Option Errno × sys.State
  pub opendir : sys.State → Mem → (name : ℕ) → ℕ × sys.State
  pub readdir_r : sys.State → Mem → (dir entry : ℕ) → Bool × sys.State × Mem
  pub closedir : sys.State → (dir : ℕ) → sys.State
  pub stat_is_dir : sys.State → Mem → (name : ℕ) → Option Bool
  pub getcwd : sys.State → Mem → (buf size : ℕ) → Option Mem

-- `iter_dir`, with the address of AllFilesBuf, and of OSData its DIR pointer and the address of the
-- entry behind it.
pub record IterDir : Type 0 where
  pub all_files_buf : ℕ
  pub all_files : Buffer
  pub filename : ℕ
  pub dir : ℕ
  pub entry : ℕ
  pub is_dir : Bool

-- The fields of `struct dirent` on Linux.
abbrev pub d_type : ℕ → ℕ
d_type entry = entry + 18

abbrev pub d_name : ℕ → ℕ
d_name entry = entry + 19

-- DT_DIR
abbrev pub dt_dir : ℕ
dt_dir = 4

-- The test for the names "." and ".."
unfoldable pub is_self_or_parent : Mem → (name : ℕ) → Bool
is_self_or_parent m name =
    (m name == dot) && ((m (name + 1) == 0) || ((m (name + 1) == dot) && (m (name + 2) == 0)))

module _ (sys : System) (calls : DirCalls sys) where
  -- `while (!readdir_r(*Dir, Entry, EntryPtr) && *EntryPtr)`, and what follows it.
  unfoldable pub list_loop :
      (fuel : ℕ) → sys.State → Mem → IterDir → Option (Bool × IterDir × sys.State × Mem)
  unfolding is_self_or_parent
  list_loop zero s m iter = none
  list_loop (suc fuel) s m iter =
      let (there, s', m') = calls.readdir_r s m (iter.dir) (iter.entry) in
      let rest = list_loop fuel s' m' iter in
      if there
      then if is_self_or_parent m' (d_name (iter.entry))
        then rest
        else some (
          true,
          record iter {
            filename = d_name (iter.entry);
            is_dir = has_bit (m' (d_type (iter.entry))) dt_dir;
          },
          s',
          m',
        )
      else some (false, record iter { dir = 0 }, calls.closedir s' (iter.dir), m')

  unfoldable pub list_files :
      (fuel : ℕ) → sys.State → Mem → IterDir → Option (Bool × IterDir × sys.State × Mem)
  unfolding list_loop
  list_files fuel s m iter =
      let (dir, s') = calls.opendir s m (iter.all_files_buf) in
      if iter.dir == 0
      then list_loop fuel s' m (record iter { dir = dir })
      else list_loop fuel s m iter

  -- Where `stat` fails, the result is what stands in memory at `PathStat`.
  pub is_existing_dir : (uninitialised : Bool) → sys.State → Mem → (filepath : ℕ) → Bool
  is_existing_dir uninitialised s m filepath = elim (calls.stat_is_dir s m filepath) [
    | some is_dir ↦ is_dir
    | none ↦ uninitialised
  ]

  pub change_dir_location : sys.State → Mem → (src_path dst_path : ℕ) → Bool × sys.State
  change_dir_location s m src_path dst_path =
      let (failure, s') = calls.rename s m src_path dst_path in
      elim failure [ none ↦ (true, s') | some _ ↦ (false, s') ]

module _ (sys : System) (calls : DirCalls sys) (k : Kernels) (local fuel : ℕ) where
  -- The loop over the slashes of WorkPath, whose array is at `work`: `none` where the fuel runs
  -- out, and a Boolean that is `false` for `return false`.
  unfoldable pub make_parents :
      (rounds : ℕ)
      → sys.State
      → Mem
      → (work : ℕ) → Buffer
      → Option (Bool × Buffer × sys.State × Mem)
  make_parents zero s m work buf = none
  make_parents (suc rounds) s m work buf =
      let idx = char_in_string k local m slash (record { buf = buf; enc = utf8 }) return_idx_find in
      let m1 = store8 m (buf.base + idx) 0 in
      let (failure, s') = calls.mkdir s m1 work in
      let m2 = store8 m1 (buf.base + idx) slash in
      let next = make_parents rounds s' m2 work (advance_buffer buf (add_usz idx 1)) in
      if idx == invalid_idx
      then some (true, buf, s, m)
      else elim failure [ none ↦ next | some eexist ↦ next | some _ ↦ some (false, buf, s', m1) ]

  -- `work` is the address of WorkPathBuf.
  unfoldable pub make_dir : sys.State → Mem → (dir_path work : ℕ) → Option (Bool × sys.State × Mem)
  unfolding make_parents
  make_dir s m dir_path work =
      let (failure, s1) = calls.mkdir s m dir_path in
      elim failure [
        | none ↦ some (true, s1, m)
        | some enoent ↦
            elim (append_array_to_path k local fuel (memset m work 0 max_path_size) dir_path
              (path work)) [
                | none ↦ none
                | some (_, buf, m1) ↦ elim (make_parents fuel s1 m1 work buf) [
                  | none ↦ none
                  | some (false, _, s2, m2) ↦ some (false, s2, m2)
                  | some (true, buf', s2, m2) ↦
                      let (failure', s3) = calls.mkdir s2 m2 dir_path in
                      if ltb 0 (buf'.write_cur)
                      then elim failure' [
                        | none ↦ some (true, s3, m2)
                        | some _ ↦ some (false, s3, m2)
                      ]
                      else some (false, s2, m2)
                ]
              ]
        | some _ ↦ some (false, s1, m)
      ]

  pub append_cwd_to_path :
      sys.State → Mem → (cwd : ℕ) → (dst : String) → Option (Bool × Buffer × Mem)
  append_cwd_to_path s m cwd dst =
      elim (calls.getcwd s (memset m cwd 0 max_path_size) cwd max_path_size) [
        | none ↦ some (false, dst.buf, memset m cwd 0 max_path_size)
        | some m' ↦ elim (strlen fuel m' (path cwd)) [
          | none ↦ none
          | some n ↦
              append_part k local fuel m'
                (record { buf = record (path cwd).buf { write_cur = n }; enc = utf8 }) dst
        ]
      ]
