-- ===== src/Platform/Path.antt =====
-- The path functions of src/tinybase-platform-linux.c. A path is a string in UTF-8. `local` is the
-- address of the parameters whose address a call takes. `none` means that the fuel ran out.
pub mod MoveUp
pub mod Parts
pub mod Append
use tiny_base.Base.{
  ℕ, zero, suc, ◌+◌, ◌-◌, ◌*◌, ◌%◌, ◌^◌, Bool, true, false, not, ◌&&◌, Option, none, some, ltb, leb,
  ◌==◌, if◌then◌else◌,
}
use tiny_base.Base.Word.{add_usz, sub_usz}
use tiny_base.Mem.{Mem, store8, memset}
use tiny_base.Memory.{Buffer, buffer, invalid_idx, return_idx_find, search_reverse}
use tiny_base.Memory.Search.{Kernels}
use tiny_base.Memory.Edit.{advance_buffer}
use tiny_base.Encoding.{Encoding, utf8, enc_value}
use tiny_base.Strings.{String}
use tiny_base.Strings.Length.{strlen}
use tiny_base.Strings.Append.{append_char_to_string, append_string_to_string}
use tiny_base.Strings.Transcode.{transcode}
use tiny_base.Strings.Chars.{char_in_string}

abbrev pub max_path_size : ℕ
max_path_size = 4096

abbrev pub slash : ℕ
slash = 0x2F

abbrev pub dot : ℕ
dot = 0x2E

-- `Path(Mem)`
abbrev pub path : (mem : ℕ) → String
path mem = record { buf = buffer mem 0 (max_path_size - 1); enc = utf8 }

unfoldable pub path_c_string : ℕ → Mem → (c_string : ℕ) → Option String
path_c_string fuel m c_string =
    elim (strlen fuel m (record { buf = buffer c_string 0 0; enc = utf8 })) [
      | none ↦ none
      | some n ↦ some (record {
        buf = buffer c_string (if leb n max_path_size then n else max_path_size) 0;
        enc = utf8;
      })
    ]

-- The last byte written, for an empty path the byte before it.
abbrev pub last_byte : Mem → Buffer → ℕ
last_byte m buf = m (add_usz buf.base (sub_usz buf.write_cur 1))

module _ (k : Kernels) (local : ℕ) where
  -- `for (Count = 0; Count < MoveUpCount; Count++)` over the rounds left.
  pub move_up_loop : (rounds : ℕ) → Mem → Encoding → Buffer → Buffer
  move_up_loop zero m enc buf = buf
  move_up_loop (suc rounds) m enc buf =
      let backslash_idx =
        char_in_string k local m slash (record { buf = buf; enc = enc })
          (return_idx_find + search_reverse) in
      let rest = move_up_loop rounds m enc (record buf { write_cur = backslash_idx }) in
      if backslash_idx == invalid_idx then record buf { write_cur = 0 } else rest

  pub move_up_path : Mem → (path : String) → (move_up_count : ℕ) → Bool × Buffer
  move_up_path m path move_up_count =
      let trimmed =
        if last_byte m path.buf == slash
        then record path.buf { write_cur = sub_usz path.write_cur 1 }
        else path.buf in
      let moved = move_up_loop move_up_count m path.enc trimmed in
      let ended =
        if ltb 0 moved.write_cur
        then record moved { write_cur = add_usz moved.write_cur 1 }
        else moved in
      (not (ended.write_cur == trimmed.write_cur), ended)

  -- How the loop over the new part ends: by `return false`, or with what it has reached.
  pub data Walk : Type 0 where
    failed : Mem → Walk
    walked : (tmp : Buffer) → Mem → (dir_char_count read_start read_idx : ℕ) → Walk

  module _ (fuel : ℕ) (src : String) (enc : Encoding) where
    -- `AppendStringToString(Dir, &Tmp)`
    unfoldable pub append_dir :
        Mem → (read_start read_idx : ℕ) → Buffer → Option (Bool × Buffer × Mem)
    append_dir m read_start read_idx tmp =
        append_string_to_string fuel m
          (record {
            buf = buffer (src.base + read_start) (sub_usz read_idx read_start) 0;
            enc = src.enc;
          })
          (record { buf = tmp; enc = enc })

    -- The body of the loop at a slash; `c0` and `c1` are the two bytes before it.
    unfoldable pub at_slash :
        Mem → (c0 c1 dir_char_count read_start read_idx : ℕ) → Buffer → Option (Bool × Buffer × Mem)
    at_slash m c0 c1 dir_char_count read_start read_idx tmp =
        if (dir_char_count == 1) && (c1 == dot)
        then some (true, tmp, m)
        else if (dir_char_count == 2) && (c0 == dot) && (c1 == dot)
        then some (true, (move_up_path m (record { buf = tmp; enc = enc }) 1).1, m)
        else elim (append_dir m read_start read_idx tmp) [
          | none ↦ none
          | some (false, tmp', m') ↦ some (false, tmp', m')
          | some (true, tmp', m') ↦
              some (append_char_to_string local m' slash (record { buf = tmp'; enc = enc }))
        ]

    -- `for (; ReadIdx < Src.WriteCur && Result == 1; ReadIdx++)` over the rounds left; `Result` stays 1.
    unfoldable pub walk_dirs :
        (rounds : ℕ) → Mem → (c1 c2 dir_char_count read_start read_idx : ℕ) → Buffer → Option Walk
    walk_dirs zero m c1 c2 dir_char_count read_start read_idx tmp =
        some (walked tmp m dir_char_count read_start read_idx)
    walk_dirs (suc rounds) m c1 c2 dir_char_count read_start read_idx tmp =
        let char = m (src.base + read_idx) in
        let next =
          walk_dirs rounds m c2 char (add_usz dir_char_count 1) read_start (read_idx + 1) tmp in
        let dir : Option Walk = elim (at_slash m c1 c2 dir_char_count read_start read_idx tmp) [
          | none ↦ none
          | some (false, _, m') ↦ some (failed m')
          | some (true, tmp', m') ↦ walk_dirs rounds m' c2 char 0 (read_idx + 1) (read_idx + 1) tmp'
        ] in
        if char == slash then dir else next

    -- The final copy and the terminator.
    unfoldable pub finish_path : (dst : Buffer) → Option Walk → Option (Bool × Buffer × Mem)
    finish_path dst none = none
    finish_path dst (some (failed m)) = some (false, dst, m)
    finish_path dst (some (walked tmp m dir_char_count read_start read_idx)) =
        let copied : Option (Bool × Buffer × Mem) =
          if ltb 0 dir_char_count
          then append_dir m read_start read_idx tmp
          else some (true, tmp, m) in
        elim copied [
          | none ↦ none
          | some (false, _, m') ↦ some (false, dst, m')
          | some (true, tmp', m') ↦ some (true, tmp', store8 m' (tmp'.base + tmp'.write_cur) 0)
        ]

  -- The slash between the two parts: `none` for `return false`.
  unfoldable pub append_separator : Mem → (dst : String) → Bool × Buffer × Mem
  append_separator m dst =
      if ltb 0 dst.write_cur && not (last_byte m dst.buf == slash)
      then append_char_to_string local m slash dst
      else (true, dst.buf, m)

  -- `_AppendPathToPath`
  unfoldable pub append_part : ℕ → Mem → (src dst : String) → Option (Bool × Buffer × Mem)
  append_part fuel m src dst =
      let (fits, tmp, m') = append_separator m dst in
      let src' : String =
        if ltb 0 dst.write_cur && (m' src.base == slash)
        then record src { buf = advance_buffer src.buf 1 }
        else src in
      if fits
      then finish_path fuel src' dst.enc dst.buf
          (walk_dirs fuel src' dst.enc src'.write_cur m' 0 0 0 0 0 tmp)
      else some (false, dst.buf, m')

  pub append_path_to_path : ℕ → Mem → (new_part dst : String) → Option (Bool × Buffer × Mem)
  append_path_to_path fuel m new_part dst =
      if (enc_value new_part.enc == enc_value dst.enc)
        && leb new_part.write_cur (sub_usz dst.size dst.write_cur)
      then append_part fuel m new_part dst
      else some (false, dst.buf, m)

  -- `array` is the address of `NewPartUTF8`.
  pub append_string_to_path :
      (array : ℕ) → ℕ → Mem → (new_part dst : String) → Option (Bool × Buffer × Mem)
  append_string_to_path array fuel m new_part dst =
      if not (enc_value new_part.enc == enc_value dst.enc)
      then elim (transcode fuel (memset m array 0 max_path_size) new_part (path array)) [
        | none ↦ none
        | some (false, _, m') ↦ some (false, dst.buf, m')
        | some (true, buf, m') ↦ append_part fuel m' (record { buf = buf; enc = utf8 }) dst
      ]
      else append_part fuel m new_part dst

  pub append_data_to_path :
      ℕ → Mem → (new_part new_part_size : ℕ) → (dst : String) → Option (Bool × Buffer × Mem)
  append_data_to_path fuel m new_part new_part_size dst =
      append_part fuel m
        (record { buf = buffer new_part new_part_size (max_path_size - 1); enc = utf8 }) dst

  unfoldable pub append_array_to_path :
      ℕ → Mem → (new_part : ℕ) → (dst : String) → Option (Bool × Buffer × Mem)
  append_array_to_path fuel m new_part dst = elim (path_c_string fuel m new_part) [
    | none ↦ none
    | some src ↦ append_part fuel m src dst
  ]
