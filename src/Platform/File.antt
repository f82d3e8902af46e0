-- ===== src/Platform/File.antt =====
-- The memory and file functions of src/tinybase-platform-linux.c over the system calls that they
-- make. A handle is the word of the descriptor. `none` means that the fuel ran out.
pub mod Open
pub mod Laws
pub mod Whole
use tiny_base.Base.{
  ℕ, ◌+◌, ◌-◌, ◌*◌, ◌%◌, ◌^◌, Bool, true, false, not, ◌&&◌, ◌||◌, Option, none, some, bit_and, ltb,
  leb, ◌==◌, if◌then◌else◌,
}
use tiny_base.Base.Word.{u32, add_usz, sub_usz}
use tiny_base.Mem.{Mem, store8, memset}
use tiny_base.Memory.{Buffer, buffer, invalid_idx, return_idx_after, search_reverse}
use tiny_base.Memory.Compare.{equal_buffers}
use tiny_base.Memory.Search.{Kernels}
use tiny_base.Memory.Edit.{append_data_to_buffer}
use tiny_base.Encoding.{utf8}
use tiny_base.Strings.{String}
use tiny_base.Strings.Length.{strlen}
use tiny_base.Strings.Chars.{char_in_string}
use tiny_base.Platform.Path.{max_path_size, slash, dot}

-- What S_ISREG and S_ISBLK tell of a mode.
pub data FileKind : Type 0 where
  regular block_device other_kind : FileKind

-- The system calls that the functions make, on a state of the system. A result that is negative on
-- failure is a word, -1 the largest; `none` stands for a failure where nothing else is returned.
pub record System : Type 1 where
  pub State : Type 0
  pub page_size : ℕ
  pub mmap : State → Mem → (address size prot : ℕ) → Option (ℕ × Mem) × State
  pub munmap : State → (base size : ℕ) → State
  pub open_file : State → Mem → (name opts mode : ℕ) → ℕ × State
  pub close : State → (fd : ℕ) → State
  pub unlink : State → Mem → (name : ℕ) → Bool × State
  pub access : State → Mem → (name : ℕ) → Bool
  pub fstat : State → (fd : ℕ) → Option (FileKind × ℕ)
  pub block_size : State → (fd : ℕ) → Option ℕ
  pub lseek : State → (fd pos : ℕ) → ℕ × State
  pub read : State → Mem → (fd dst n : ℕ) → ℕ × State × Mem
  pub write : State → Mem → (fd src n : ℕ) → ℕ × State
  pub copy_file_range : State → (src_fd dst_fd n : ℕ) → ℕ × State

-- USZ_MAX
abbrev pub invalid_file : ℕ
invalid_file = 2 ^ 64 - 1

-- `Flags & F` for a flag of one bit
abbrev pub has_bit : (flags f : ℕ) → Bool
has_bit flags f = not (bit_and flags f == 0)

-- `(Value-1 & ~(Boundary-1)) + Boundary` for a boundary that is a power of two.
pub align : (value boundary : ℕ) → ℕ
align value boundary = add_usz (sub_usz value 1 - sub_usz value 1 % boundary) boundary

-- `Prot` of GetMemory, by the constants of Linux.
pub protection : (flags : ℕ) → ℕ
protection flags =
    let read = if has_bit flags 0x1 then 1 else 0 in
    let write = if has_bit flags 0x2 then 3 else read in
    let exec = if has_bit flags 0x8 then write + 4 else write in
    if has_bit flags 0x4 then 0 else exec

-- `OpenOpts` of _NewFile, by the constants of Linux on x86-64. No two of its bits are the same.
pub open_opts : (is_create : Bool) → (flags : ℕ) → ℕ
open_opts is_create flags =
    let reads = has_bit flags 0x1 || has_bit flags 0x4 in
    let writes = has_bit flags 0x2 || has_bit flags 0x8 in
    (if is_create then (if has_bit flags 0x100 then 0x240 else 0xC0) else 0)
    + (if reads && writes then 2 else if reads then 0 else if writes then 1 else 0)
    + (if has_bit flags 0x80 then 0x400 else 0)
    + (if has_bit flags 0x40 then 0x2800 else 0)

module _ (sys : System) where
  pub get_memory : sys.State → Mem → (size address flags : ℕ) → Buffer × sys.State × Mem
  get_memory s m size address flags =
      let (ptr, s') = sys.mmap s m address size (protection flags) in
      elim ptr [
        | none ↦ (buffer 0 0 0, s', m)
        | some (base, m') ↦
            (buffer base 0 (if sys.page_size == 0 then size else align size sys.page_size), s', m')
      ]

  pub free_memory : sys.State → Buffer → Buffer × sys.State
  free_memory s mem = (buffer 0 0 0, sys.munmap s mem.base mem.size)

  pub file_size_of : sys.State → (file : ℕ) → ℕ
  file_size_of s file = elim (sys.fstat s (u32 file)) [
    | some (regular, size) ↦ size
    | some (block_device, size) ↦ elim (sys.block_size s (u32 file)) [
      | none ↦ invalid_idx
      | some n ↦ n
    ]
    | _ ↦ invalid_idx
  ]

  pub seek_file : sys.State → (file pos : ℕ) → Bool × sys.State
  seek_file s file pos = let (result, s') = sys.lseek s (u32 file) pos in (result == pos, s')

  pub read_from_file :
      sys.State
      → Mem
      → (file : ℕ) → Buffer
      → (amount_to_read start_pos : ℕ) → Bool × Buffer × sys.State × Mem
  read_from_file s m file dst amount_to_read start_pos =
      let (_, s1) = seek_file s file start_pos in
      let (bytes_read, s2, m') =
        sys.read s1 m (u32 file) (dst.base + dst.write_cur) amount_to_read in
      if leb (add_usz start_pos amount_to_read) (file_size_of s file)
        && leb amount_to_read (sub_usz dst.size dst.write_cur)
      then (if bytes_read == amount_to_read
          then (true, record dst { write_cur = add_usz dst.write_cur amount_to_read }, s2, m')
          else (false, dst, s2, m'))
      else (false, dst, s, m)

  pub read_entire_file : sys.State → Mem → (file : ℕ) → Buffer × sys.State × Mem
  read_entire_file s m file =
      let file_size = file_size_of s file in
      let (mem, s1, m1) = get_memory s m file_size 0 0x2 in
      let (done, mem', s2, m2) = read_from_file s1 m1 file mem file_size 0 in
      let (freed, s3) = free_memory s2 mem' in
      if mem.base == 0
      then (mem, s1, m1)
      else if done
      then (record mem' { write_cur = file_size }, s2, m2)
      else (freed, s3, m2)

  pub append_to_file : sys.State → Mem → (file : ℕ) → (content : Buffer) → Bool × sys.State
  append_to_file s m file content =
      let (bytes_written, s') = sys.write s m (u32 file) content.base content.write_cur in
      (bytes_written == content.write_cur, s')

  pub write_entire_file : sys.State → Mem → (file : ℕ) → (content : Buffer) → Bool × sys.State
  write_entire_file s m file content =
      let (_, s') = seek_file s file 0 in append_to_file s' m file content

  pub write_to_file :
      sys.State → Mem → (file : ℕ) → (content : Buffer) → (start_pos : ℕ) → Bool × sys.State
  write_to_file s m file content start_pos =
      let (_, s') = seek_file s file start_pos in append_to_file s' m file content

  -- A block that was read for only one of the files is not freed.
  pub files_are_equal : sys.State → Mem → (a b : ℕ) → Bool × sys.State × Mem
  files_are_equal s m a b =
      let (a_buf, s1, m1) = read_entire_file s m a in
      let (b_buf, s2, m2) = read_entire_file s1 m1 b in
      let (_, s3) = free_memory s2 a_buf in
      let (_, s4) = free_memory s3 b_buf in
      if file_size_of s a == file_size_of s b
      then (if not (a_buf.base == 0) && not (b_buf.base == 0)
          then (equal_buffers m2 a_buf b_buf, s4, m2)
          else (false, s2, m2))
      else (false, s, m)

  pub close_file_handle : sys.State → (file : ℕ) → sys.State
  close_file_handle s file = sys.close s (u32 file)

  pub remove_file : sys.State → Mem → (filename : ℕ) → Bool × sys.State
  remove_file s m filename = sys.unlink s m filename
