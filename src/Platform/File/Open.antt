-- ===== src/Platform/File/Open.antt =====
-- Handles of files by name: _NewFile and its callers, DuplicateFile and IsFileHidden of
-- src/tinybase-platform-linux.c.
use tiny_base.Base.{ℕ, ◌+◌, Bool, true, false, not, ◌&&◌, Option, none, some, ◌==◌, if◌then◌else◌}
use tiny_base.Base.Word.{u32, add_usz, sub_usz}
use tiny_base.Mem.{Mem, store8, memset}
use tiny_base.Memory.{Buffer, buffer, invalid_idx, return_idx_after, search_reverse}
use tiny_base.Memory.Search.{Kernels}
use tiny_base.Memory.Edit.{append_data_to_buffer}
use tiny_base.Encoding.{utf8}
use tiny_base.Strings.{String}
use tiny_base.Strings.Length.{strlen}
use tiny_base.Strings.Chars.{char_in_string}
use tiny_base.Platform.Path.{max_path_size, slash, dot}
use tiny_base.Platform.File.{
  System, invalid_file, has_bit, open_opts, file_size_of, close_file_handle,
}

module _ (sys : System) where
  module _ (k : Kernels) (local : ℕ) (fuel : ℕ) where
    pub is_existing_path : sys.State → Mem → (filepath : ℕ) → Bool
    is_existing_path s m filepath = sys.access s m filepath

    pub is_file_hidden : sys.State → Mem → (filename : ℕ) → Option Bool
    is_file_hidden s m filename =
        let file : String = record { buf = buffer filename 0 0; enc = utf8 } in
        if is_existing_path s m filename
        then elim (strlen fuel m file) [
          | none ↦ none
          | some n ↦
              let after =
                char_in_string k local m slash (record file { buf = buffer filename n 0 })
                  (return_idx_after + search_reverse) in
              some (
                (if not (after == invalid_idx) then m (filename + after) else m (filename + 0))
                == dot)
        ]
        else some false

    -- The name of a hidden file, put together in `NewBuf` at the address `new_buf`. The memory after
    -- it is returned.
    pub hidden_name : Mem → (new_buf filename n : ℕ) → Mem
    hidden_name m new_buf filename n =
        let after =
          char_in_string k local m slash
            (record { buf = buffer filename n max_path_size; enc = utf8 })
            (return_idx_after + search_reverse) in
        let new = buffer new_buf 0 max_path_size in
        let m1 = memset m new_buf 0 max_path_size in
        let (_, new1, m2) =
          if not (after == invalid_idx)
          then append_data_to_buffer m1 filename after new
          else (true, new, m1) in
        let (new2, m3) : Buffer × Mem =
          if not (m2 (add_usz filename after) == dot)
          then (
            record new1 { write_cur = add_usz new1.write_cur 1 },
            store8 m2 (new1.base + new1.write_cur) dot,
          )
          else (new1, m2) in
        let (_, _, m4) = append_data_to_buffer m3 (add_usz filename after) (sub_usz n after) new2 in
        m4

    pub new_file :
        (new_buf : ℕ)
        → sys.State
        → Mem
        → (filename : ℕ) → (is_create : Bool) → (flags : ℕ) → Option (ℕ × sys.State × Mem)
    new_file new_buf s m filename is_create flags =
        let opts = open_opts is_create flags in
        let mode = if is_create then 0x180 else 0 in
        if has_bit flags 0x20
        then elim (strlen fuel m (record { buf = buffer filename 0 max_path_size; enc = utf8 })) [
          | none ↦ none
          | some n ↦
              let m' = hidden_name m new_buf filename n in
              let (file, s') = sys.open_file s m' new_buf opts mode in some (file, s', m')
        ]
        else (let (file, s') = sys.open_file s m filename opts mode in some (file, s', m))

    pub create_new_file :
        (new_buf : ℕ) → sys.State → Mem → (filename flags : ℕ) → Option (ℕ × sys.State × Mem)
    create_new_file new_buf s m filename flags = new_file new_buf s m filename true flags

    pub open_file_handle :
        (new_buf : ℕ) → sys.State → Mem → (filename flags : ℕ) → Option (ℕ × sys.State × Mem)
    open_file_handle new_buf s m filename flags = elim (new_file new_buf s m filename false flags) [
      | none ↦ none
      | some (file, s', m') ↦
          let again = new_file new_buf s' m' filename true flags in
          if has_bit flags 0x200 && (file == invalid_file) then again else some (file, s', m')
    ]

    pub duplicate_file :
        (new_buf : ℕ)
        → sys.State
        → Mem
        → (src_path dst_path : ℕ) → (overwrite_if_exists : Bool) → Option (Bool × sys.State × Mem)
    duplicate_file new_buf s m src_path dst_path overwrite_if_exists =
        elim (open_file_handle new_buf s m src_path 0x4) [
          | none ↦ none
          | some (src_file, s1, m1) ↦
              let flags = if overwrite_if_exists then 0x108 else 0x8 in
              let copied : Option (Bool × sys.State × Mem) =
                elim (create_new_file new_buf s1 m1 dst_path flags) [
                  | none ↦ none
                  | some (dst_file, s2, m2) ↦
                      let size = file_size_of sys s2 src_file in
                      let (written, s3) =
                        sys.copy_file_range s2 (u32 src_file) (u32 dst_file) size in
                      let s4 = close_file_handle sys (close_file_handle sys s3 src_file) dst_file in
                      if dst_file == invalid_file
                      then some (false, close_file_handle sys s2 src_file, m2)
                      else some (written == size, close_file_handle sys s4 src_file, m2)
                ] in
              if src_file == invalid_file then some (false, s1, m1) else copied
        ]
