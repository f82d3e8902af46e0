-- ===== src/Platform/Dir/Remove.antt =====
-- The functions of src/tinybase-platform-linux.c that iterate over a directory to remove it, and
-- ChangeFileLocation. `none` means that the fuel ran out.
use tiny_base.Base.{ℕ, zero, suc, Bool, true, false, Option, none, some, if◌then◌else◌}
use tiny_base.Mem.{Mem, memset}
use tiny_base.Memory.Search.{Kernels}
use tiny_base.Memory.Edit.{clear_buffer}
use tiny_base.Encoding.{utf8}
use tiny_base.Strings.{String}
use tiny_base.Strings.Append.{append_string_to_string}
use tiny_base.Platform.Path.{max_path_size, path, path_c_string, append_path_to_path}
use tiny_base.Platform.File.{System, remove_file}
use tiny_base.Platform.File.Open.{duplicate_file}
use tiny_base.Platform.Dir.{DirCalls, IterDir, exdev, list_files}

module _ (sys : System) (calls : DirCalls sys) (k : Kernels) (local fuel : ℕ) where
  pub init_iter_dir : Mem → IterDir → (dir_path : String) → Option (IterDir × Mem)
  init_iter_dir m iter dir_path =
      let (_, m1) = clear_buffer m (iter.all_files) in
      elim (append_string_to_string fuel m1 dir_path (path (iter.all_files_buf))) [
        | none ↦ none
        | some (_, buf, m2) ↦ some (record iter { all_files = buf }, m2)
      ]

  -- `while (ListFiles(&Iter))` in RemoveDir, over the recursive call: `some (some ...)` is a return.
  pub remove_entries :
      (remove_sub : sys.State → Mem → (dir_path : ℕ) → Option (Bool × sys.State × Mem)) (rounds : ℕ)
      → sys.State
      → Mem
      → IterDir
      → Option (Bool × sys.State × Mem)
  remove_entries remove_sub zero s m iter = none
  remove_entries remove_sub (suc rounds) s m iter = elim (list_files sys calls fuel s m iter) [
    | none ↦ none
    | some (false, _, s1, m1) ↦ some (true, s1, m1)
    | some (true, iter', s1, m1) ↦ elim (path_c_string fuel m1 (iter'.filename)) [
      | none ↦ none
      | some filename ↦
          elim (append_path_to_path k local fuel m1 filename
            (record { buf = iter'.all_files; enc = utf8 })) [
              | none ↦ none
              | some (_, scratch, m2) ↦
                  let removed : Option (Bool × sys.State × Mem) =
                    if iter'.is_dir
                    then remove_sub s1 m2 (scratch.base)
                    else (let (done, s2) = remove_file sys s1 m2 (scratch.base) in
                        some (done, s2, m2)) in
                  elim removed [
                    | none ↦ none
                    | some (false, s2, m3) ↦ some (false, s2, m3)
                    | some (true, s2, m3) ↦ remove_entries remove_sub rounds s2 m3 iter'
                  ]
            ]
    ]
  ]

  -- RemoveDir, with the depth of its recursion and the rounds of its loop as fuel. The structure
  -- Iter of a call has its fields at the addresses `iter_at depth`, and is all zero.
  pub remove_dir :
      (iter_at : ℕ → IterDir) (depth rounds : ℕ)
      → sys.State
      → Mem
      → (dir_path : ℕ) → (remove_all_files : Bool) → Option (Bool × sys.State × Mem)
  unfolding remove_entries init_iter_dir
  remove_dir iter_at zero rounds s m dir_path remove_all_files = none
  remove_dir iter_at (suc depth) rounds s m dir_path remove_all_files =
      let iter = iter_at depth in
      let rest : sys.State → Mem → ℕ → Option (Bool × sys.State × Mem) =
        λ s' m' name. remove_dir iter_at depth rounds s' m' name true in
      let removed : Option (Bool × sys.State × Mem) = elim (path_c_string fuel m dir_path) [
        | none ↦ none
        | some remove_path ↦
            elim (init_iter_dir (memset m (iter.all_files_buf) 0 max_path_size) iter remove_path) [
              | none ↦ none
              | some (iter', m1) ↦ remove_entries rest rounds s m1 iter'
            ]
      ] in
      let emptied : Option (Bool × sys.State × Mem) =
        if remove_all_files then removed else some (true, s, m) in
      elim emptied [
        | none ↦ none
        | some (false, s1, m1) ↦ some (false, s1, m1)
        | some (true, s1, m1) ↦ let (done, s2) = calls.rmdir s1 m1 dir_path in some (done, s2, m1)
      ]

  -- `new_buf` is the address of the array in the functions that DuplicateFile calls.
  pub change_file_location :
      (new_buf : ℕ) → sys.State → Mem → (src_path dst_path : ℕ) → Option (Bool × sys.State × Mem)
  change_file_location new_buf s m src_path dst_path =
      let (failure, s1) = calls.rename s m src_path dst_path in
      elim failure [
        | none ↦ some (true, s1, m)
        | some exdev ↦ elim (duplicate_file sys k local fuel new_buf s1 m src_path dst_path false) [
          | none ↦ none
          | some (true, s2, m') ↦
              let (done, s3) = remove_file sys s2 m' src_path in some (done, s3, m')
          | some (false, s2, m') ↦ some (false, s2, m')
        ]
        | some _ ↦ some (false, s1, m)
      ]
