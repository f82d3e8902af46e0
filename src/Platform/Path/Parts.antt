-- ===== src/Platform/Path/Parts.antt =====
-- The parts of AppendPathToPath where the new part is a name.
use tiny_base.Base.{
  ℕ, zero, suc, ◌+◌, ◌^◌, ◌<◌, ◌≤◌, ◌≡◌, ◌≢◌, refl, ap, ap₂, ◌∙◌, arith, true, false, some, [], ◌∷◌,
  lt→ltb, le→leb, ◌==◌, ne→==,
}
use tiny_base.Base.Word.{add_usz, sub_usz}
use tiny_base.Mem.{Mem, store8}
use tiny_base.Memory.{Buffer, buffer, IsWritable}
use tiny_base.Memory.Search.{Kernels}
use tiny_base.Memory.Edit.{append_buffer_to_buffer}
use tiny_base.Memory.Edit.Spec.{Appends}
use tiny_base.Encoding.{Encoding, utf8}
use tiny_base.Encoding.Char.{encode_char, adjust_endianness}
use tiny_base.Encoding.Char.Spec.{encoded}
use tiny_base.Encoding.Char.Low.{encode_char_of_low}
use tiny_base.Strings.{String}
use tiny_base.Strings.Append.{store_word, append_char_to_string}
use tiny_base.Strings.Append.Char.{append_char_to_string-Appends}
use tiny_base.Strings.Append.Text.{append_string_to_string-same}
use tiny_base.Platform.Path.{
  slash, last_byte, walked, walk_dirs, append_dir, finish_path, append_separator, append_part,
  append_path_to_path,
}

module _ (k : Kernels) (local : ℕ) where
  -- The loop over a part without a slash copies nothing yet.
  module _ (fuel : ℕ) (src : String) (enc : Encoding) (m : Mem) (tmp : Buffer) where
    walk_name :
        (rounds c1 c2 n idx : ℕ)
        → ((i : ℕ) → i < rounds → m (src.base + (idx + i)) ≢ slash)
        → n + rounds < 2 ^ 64
        → walk_dirs k local fuel src enc rounds m c1 c2 n 0 idx tmp
          ≡ some (walked tmp m (n + rounds) 0 (idx + rounds))
    unfolding walk_dirs
    walk_name zero c1 c2 n idx plain small =
        ap₂ (λ a b. some (walked tmp m a 0 b)) (omega arith) (omega arith)
    walk_name (suc rounds) c1 c2 n idx plain small =
        let here : m (src.base + idx) ≢ slash =
          λ e. plain 0 (omega arith) (ap m (omega arith) ∙ e) in
        let next : add_usz n 1 ≡ n + 1 = omega arith in
        rw (ne→== (m (src.base + idx)) slash here, next)
          (walk_name rounds c2 (m (src.base + idx)) (n + 1) (idx + 1)
              (λ i lt e. plain (suc i) (omega arith) (ap m (omega arith) ∙ e)) (omega arith)
            ∙ ap₂ (λ a b. some (walked tmp m a 0 b)) (omega arith) (omega arith))

  -- The end of the function for a name: it is copied whole, and the terminator stored.
  module _ (fuel : ℕ) (src dst tmp tmp' : Buffer) (m m' : Mem) (n : ℕ) where
    copy_name :
        n < 2 ^ 64
        → append_buffer_to_buffer m (buffer src.base n 0) tmp ≡ (true, tmp', m')
        → append_dir k local fuel (record { buf = src; enc = utf8 }) utf8 m 0 n tmp
          ≡ some (true, tmp', m')
    unfolding append_dir
    copy_name small e =
        let start : src.base + 0 ≡ src.base = omega arith in
        let size : sub_usz n 0 ≡ n = omega arith in
        rw (append_dir, start, size)
          (append_string_to_string-same fuel m (buffer src.base n 0) tmp utf8 ∙ ap some e)

    finish_name :
        0 < n
        → append_dir k local fuel (record { buf = src; enc = utf8 }) utf8 m 0 n tmp
          ≡ some (true, tmp', m')
        → finish_path k local fuel
            (record { buf = src; enc = utf8 })
            utf8
            dst
            (some (walked tmp m n 0 n))
          ≡ some (true, tmp', store8 m' (tmp'.base + tmp'.write_cur) 0)
    unfolding finish_path
    finish_name pos e = rw (finish_path, lt→ltb 0 n pos, e) refl

  -- The slash that is put between.
  pub separate :
      (m : Mem) (dst : Buffer)
      → 0 < dst.write_cur
      → last_byte m dst ≢ slash
      → append_separator k local m (record { buf = dst; enc = utf8 })
        ≡ append_char_to_string local m slash (record { buf = dst; enc = utf8 })
  unfolding append_separator
  separate m dst pos ne =
      rw (append_separator, lt→ltb 0 dst.write_cur pos, ne→== (last_byte m dst) slash ne) refl

  -- The function on a name, from what its calls give.
  pub part_name :
      (fuel : ℕ) (m m1 m2 : Mem) (src dst tmp tmp' : Buffer)
      → 0 < src.write_cur
      → 0 < dst.write_cur
      → src.write_cur < 2 ^ 64
      → append_separator k local m (record { buf = dst; enc = utf8 }) ≡ (true, tmp, m1)
      → ((i : ℕ) → i < src.write_cur → m1 (src.base + i) ≢ slash)
      → append_buffer_to_buffer m1 (buffer src.base src.write_cur 0) tmp ≡ (true, tmp', m2)
      → append_part k local fuel m
          (record { buf = src; enc = utf8 })
          (record { buf = dst; enc = utf8 })
        ≡ some (true, tmp', store8 m2 (tmp'.base + tmp'.write_cur) 0)
  unfolding append_part
  part_name fuel m m1 m2 src dst tmp tmp' pos some_dst small separated plain copied =
      let first : (m1 src.base == slash) ≡ false =
        ne→== (m1 src.base) slash (λ e. plain 0 pos (ap m1 (omega arith) ∙ e)) in
      let walk =
        walk_name fuel (record { buf = src; enc = utf8 }) utf8 m1 tmp src.write_cur 0 0 0 0
          (λ i lt e. plain i lt (ap m1 (omega arith) ∙ e)) (omega arith) in
      let whole : 0 + src.write_cur ≡ src.write_cur = omega arith in
      let ends =
        finish_name fuel src dst tmp tmp' m1 m2 src.write_cur pos
          (copy_name fuel src dst tmp tmp' m1 m2 src.write_cur small copied) in
      rw (append_part, separated, lt→ltb 0 dst.write_cur some_dst, first)
        (ap (finish_path k local fuel (record { buf = src; enc = utf8 }) utf8 dst)
            (rw whole at walk)
          ∙ ends)

  pub slash-Appends :
      (m : Mem) (dst : Buffer)
      → IsWritable dst
      → Appends
          (store_word m local slash)
          dst
          (slash ∷ [])
          (append_char_to_string local m slash (record { buf = dst; enc = utf8 }))
  unfolding encoded adjust_endianness
  slash-Appends m dst w =
      let code : encode_char slash utf8 ≡ slash = encode_char_of_low utf8 slash (omega arith) in
      rw code at (
        append_char_to_string-Appends local m slash (record { buf = dst; enc = utf8 }) w
          (omega arith))

  pub same_append :
      (m : Mem) (src dst : Buffer)
      → src.write_cur ≤ sub_usz dst.size dst.write_cur
      → (fuel : ℕ)
      → append_path_to_path k local fuel m
          (record { buf = src; enc = utf8 })
          (record { buf = dst; enc = utf8 })
        ≡ append_part k local fuel m
            (record { buf = src; enc = utf8 })
            (record { buf = dst; enc = utf8 })
  unfolding append_path_to_path
  same_append m src dst room fuel =
      rw (append_path_to_path, le→leb src.write_cur (sub_usz dst.size dst.write_cur) room) refl
