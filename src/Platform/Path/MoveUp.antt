-- ===== src/Platform/Path/MoveUp.antt =====
-- MoveUpPath by one directory.
use native.Mathlib.Decide.{dec_lt}
use tiny_base.Base.{
  ℕ, zero, suc, ◌+◌, ◌-◌, ◌^◌, ◌<◌, ◌≤◌, ◌≡◌, ◌≢◌, refl, sym, ap, ◌∙◌, arith, true, false, not,
  Option, none, some, List, [], ◌∷◌, ◌++◌, length, length-append, ltb, lt→ltb, ◌==◌, ne→==,
  if◌then◌else◌,
}
use tiny_base.Base.Word.{add_usz}
use tiny_base.Mem.{Mem}
use tiny_base.Mem.Laws.{length-bytes}
use tiny_base.Memory.{Buffer, contents, IsReadable, invalid_idx, return_idx_find, search_reverse}
use tiny_base.Memory.Search.{Kernels}
use tiny_base.Memory.Search.Spec.{IsCorrect, IsGreatest, ByteAt}
use tiny_base.Memory.Search.Laws.{byte_in_buffer_lem}
use tiny_base.Encoding.{utf8}
use tiny_base.Encoding.Char.{get_multibyte_char_size}
use tiny_base.Encoding.Char.Bytes.{Holds, Holds-bytes, Holds-append}
use tiny_base.Strings.{String}
use tiny_base.Strings.Chars.{char_in_string}
use tiny_base.Strings.Chars.Find.{by_byte}
use tiny_base.Platform.Path.{slash, last_byte, move_up_loop, move_up_path}

-- A name in a path: no byte of it is a slash.
abbrev pub NoSlash : List ℕ → Type 0
NoSlash [] = Unit {0}
NoSlash (x ∷ xs) = (x ≢ slash) × NoSlash xs

name_bytes :
    (m : Mem) (q : ℕ) (name : List ℕ)
    → Holds m q name
    → NoSlash name
    → (i : ℕ) → i < length name
    → m (q + i) ≢ slash
name_bytes m q [] holds plain i lt e = absurd (omega arith)
name_bytes m q (x ∷ xs) holds plain zero lt e = plain.0 (sym holds.0 ∙ ap m (omega arith) ∙ e)
name_bytes m q (x ∷ xs) holds plain (suc i) lt e =
    name_bytes m (q + 1) xs holds.1 plain.1 i (omega arith) (ap m (omega arith) ∙ e)

greatest_is :
    (P : ℕ → Type 0) (o : Option ℕ) (i : ℕ)
    → IsGreatest P o
    → P i
    → ((j : ℕ) → i < j → ¬ P j)
    → o ≡ some i
greatest_is P none i g here above = absurd (g i here)
greatest_is P (some j) i g here above = elim (dec_lt i j) [
  | yes more ↦ absurd (above j more g.0)
  | no le ↦ elim (dec_lt j i) [
    | yes less ↦ absurd (g.1 i less here)
    | no ge ↦ ap some (omega arith)
  ]
]

module _ (k : Kernels) (local : ℕ) (m : Mem) (buf : Buffer) (correct : IsCorrect k)
    (readable : IsReadable buf) where
  slash_size : get_multibyte_char_size slash utf8 ≡ 1
  unfolding get_multibyte_char_size
  slash_size = refl

  last_slash :
      (i : ℕ)
      → ByteAt m slash buf i
      → ((j : ℕ) → i < j → ¬ ByteAt m slash buf j)
      → char_in_string k local m slash
          (record { buf = buf; enc = utf8 })
          (return_idx_find + search_reverse)
        ≡ i
  last_slash i here above =
      let s : String = record { buf = buf; enc = utf8 } in
      let (_, (o, g, reports)) = byte_in_buffer_lem k m slash buf correct readable in
      let e = greatest_is (ByteAt m slash buf) o i g here above in
      ap (λ find. find (return_idx_find + search_reverse))
        (sym (by_byte k local m slash s slash_size))
      ∙ (rw e at reports).1

  loop_one :
      (i : ℕ)
      → i < invalid_idx
      → char_in_string k local m slash
          (record { buf = buf; enc = utf8 })
          (return_idx_find + search_reverse)
        ≡ i
      → move_up_loop k local 1 m utf8 buf ≡ record buf { write_cur = i }
  unfolding move_up_loop
  loop_one i lt e = rw (e, ne→== i invalid_idx (omega arith)) refl

  one_step :
      (i : ℕ)
      → (last_byte m buf == slash) ≡ false
      → move_up_loop k local 1 m utf8 buf ≡ record buf { write_cur = i }
      → move_up_path k local m (record { buf = buf; enc = utf8 }) 1 ≡ (
          let ended : Buffer =
            if ltb 0 i
            then record buf { write_cur = add_usz i 1 }
            else record buf { write_cur = i } in
          (not (ended.write_cur == buf.write_cur), ended))
  unfolding move_up_path
  one_step i trim e = rw (move_up_path, trim, e) refl

-- What the path is cut to: the part before the last slash and the slash, but nothing where this
-- part is empty.
abbrev pub parent_length : List ℕ → ℕ
parent_length [] = 0
parent_length (x ∷ xs) = length xs + 2

ended_lem :
    (pre : List ℕ) (buf : Buffer)
    → length pre + 2 ≤ buf.write_cur
    → buf.write_cur < 2 ^ 64
    → (if ltb 0 (length pre)
        then record buf { write_cur = add_usz (length pre) 1 }
        else record buf { write_cur = length pre })
      ≡ record buf { write_cur = parent_length pre }
ended_lem [] buf long word = refl
ended_lem (x ∷ xs) buf long word =
    rw (lt→ltb 0 (length (x ∷ xs)) (omega arith))
      (ap (λ n. record buf { write_cur = n }) (omega arith))

-- MoveUpPath by one directory, with correct searches, of a readable path in UTF-8 that ends in a
-- slash and a name that is not empty, cuts the path behind the slash and returns true. Where
-- nothing stands before the slash, so that the parent is the root directory, the slash is lost: the
-- path becomes empty.
pub move_up_path-parent :
    (k : Kernels) (local : ℕ) (m : Mem) (buf : Buffer) (pre name : List ℕ)
    → IsCorrect k
    → IsReadable buf
    → contents m buf ≡ pre ++ (slash ∷ name)
    → 0 < length name
    → NoSlash name
    → move_up_path k local m (record { buf = buf; enc = utf8 }) 1
      ≡ (true, record buf { write_cur = parent_length pre })
unfolding move_up_path
move_up_path-parent k local m buf pre name correct readable text some_name plain =
    let len : buf.write_cur ≡ length (pre ++ (slash ∷ name)) =
      sym (length-bytes m buf.base buf.write_cur) ∙ ap length text in
    let split = length-append pre (slash ∷ name) in
    let (_, after) =
      Holds-append m buf.base pre (slash ∷ name)
        (Holds-bytes m buf.base (pre ++ (slash ∷ name)) (rw (← len) text)) in
    let bytes_of_name = name_bytes m (buf.base + length pre + 1) name after.1 plain in
    let trim : (last_byte m buf == slash) ≡ false =
      ne→== (last_byte m buf) slash (λ e.
        bytes_of_name (length name - 1) (omega arith) (ap m (omega (arith, len, split)) ∙ e)) in
    let found =
      last_slash k local m buf correct readable (length pre) (omega (arith, len, split), after.0)
        (λ j more at.
          bytes_of_name (j - length pre - 1) (omega (arith, len, split, at.0))
            (ap m (omega arith) ∙ at.1)) in
    let looped =
      loop_one k local m buf correct readable (length pre) (omega (arith, len, split)) found in
    let ended = ended_lem pre buf (omega (arith, len, split)) (omega arith) in
    one_step k local m buf correct readable (length pre) trim looped
    ∙ rw
        (
          ended,
          ne→== (parent_length pre) buf.write_cur (λ e. shorter pre (omega (arith, len, split)) e),
        )
        refl
  where
    shorter : (pre : List ℕ) → length pre + 2 ≤ buf.write_cur → parent_length pre ≢ buf.write_cur
    shorter [] long e = absurd (omega arith)
    shorter (x ∷ xs) long e = absurd (omega arith)
