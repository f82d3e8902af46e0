-- ===== src/Platform/Path/Append.antt =====
-- AppendPathToPath of a name.
use mathlib.Core.List.{append_assoc}
use tiny_base.Base.{
  ℕ, ◌+◌, ◌<◌, ◌≤◌, ◌≡◌, ◌≢◌, inl, inr, refl, sym, ap, ap₂, ◌∙◌, arith, Bool, true, Option, some,
  List, [], ◌∷◌, ◌++◌, length, ==_refl,
}
use tiny_base.Mem.{Mem, bytes, store8, Disjoint}
use tiny_base.Mem.Laws.{length-bytes, bytes-outside, bytes_inj, store8-SameOutside}
use tiny_base.Memory.{Buffer, buffer, contents, IsReadable, IsWritable}
use tiny_base.Memory.Search.{Kernels}
use tiny_base.Memory.Edit.{append_buffer_to_buffer}
use tiny_base.Memory.Edit.Spec.{Appended, Appends}
use tiny_base.Memory.Edit.Laws.{append_buffer_to_buffer-Appends, Appended-IsWritable}
use tiny_base.Encoding.{utf8}
use tiny_base.Strings.Append.{store_word, append_char_to_string}
use tiny_base.Strings.Append.Local.{store_word-SameOutside}
use tiny_base.Platform.Path.{slash, last_byte, append_path_to_path}
use tiny_base.Platform.Path.Parts.{separate, part_name, slash-Appends, same_append}

-- Regions inside of others.
inside_of :
    (dst : Buffer) (i n b k : ℕ)
    → i + n ≤ dst.size
    → Disjoint dst.base dst.size b k
    → Disjoint (dst.base + i) n b k
inside_of dst i n b k le (inl l) = inl (omega arith)
inside_of dst i n b k le (inr r) = inr (omega arith)

shorter : (a b n k : ℕ) → n ≤ k → Disjoint a 4 b k → Disjoint a 4 b n
shorter a b n k le (inl l) = inl (omega arith)
shorter a b n k le (inr r) = inr (omega arith)

must_fit :
    (m : Mem) (dst : Buffer) (added : List ℕ) (r : Bool × Buffer × Mem)
    → dst.write_cur + length added ≤ dst.size
    → Appends m dst added r
    → Appended m dst added r
must_fit m dst added r fits (inl a) = a
must_fit m dst added r fits (inr b) = let full = b.full in absurd (omega (arith, full))

-- What a name appended to a path gives: the path, a slash and the name, with a null byte behind.
pub record Joined (m : Mem) (src dst : Buffer) (result : Option (Bool × Buffer × Mem))
    : Type 0 where
  pub buf : Buffer
  pub mem : Mem
  pub runs : result ≡ some (true, buf, mem)
  pub same_base : buf.base ≡ dst.base
  pub same_size : buf.size ≡ dst.size
  pub value : contents mem buf ≡ contents m dst ++ (slash ∷ contents m src)
  pub ended : mem (buf.base + buf.write_cur) ≡ 0

-- AppendPathToPath of a name, a readable path in UTF-8 that is not empty and has no slash, to a
-- writable path in UTF-8 that is not empty and does not end in a slash, with room for both, the
-- slash and a null byte: it returns true, and the path holds what it held, a slash and the name,
-- with a null byte behind. The name, the path's memory and the parameter do not overlap.
pub append_path_to_path-Joined :
    (k : Kernels) (local fuel : ℕ) (m : Mem) (src dst : Buffer)
    → IsReadable src
    → IsWritable dst
    → 0 < src.write_cur
    → ((i : ℕ) → i < src.write_cur → m (src.base + i) ≢ slash)
    → 0 < dst.write_cur
    → last_byte m dst ≢ slash
    → dst.write_cur + src.write_cur + 1 < dst.size
    → Disjoint dst.base dst.size src.base src.write_cur
    → Disjoint local 4 src.base src.write_cur
    → Disjoint local 4 dst.base dst.size
    → Joined m src dst (
        append_path_to_path k local fuel m
          (record { buf = src; enc = utf8 })
          (record { buf = dst; enc = utf8 }))
append_path_to_path-Joined k local fuel m src dst readable w some_src plain some_dst open_end room
      apart word_src word_dst =
    let m0 = store_word m local slash in
    let stored = store_word-SameOutside m local slash in
    let r1 = append_char_to_string local m slash (record { buf = dst; enc = utf8 }) in
    let a1 = must_fit m0 dst (slash ∷ []) r1 (omega arith) (slash-Appends k local m dst w) in
    let r2 = append_buffer_to_buffer r1.2 (buffer src.base src.write_cur 0) r1.1 in
    let w1 = Appended-IsWritable w a1 in
    let cursor1 = a1.cursor in
    let size1 = a1.same_size in
    let base1 = a1.same_base in
    let len = length-bytes r1.2 src.base src.write_cur in
    let a2 =
      must_fit r1.2 r1.1 (bytes r1.2 src.base src.write_cur) r2 (omega (arith, cursor1, size1, len))
        (append_buffer_to_buffer-Appends r1.2 (buffer src.base src.write_cur 0) r1.1 w1) in
    let src_same =
      bytes-outside (dst.base + dst.write_cur) 1 src.base src.write_cur a1.frame
        (inside_of dst (dst.write_cur) 1 src.base src.write_cur (omega arith) apart)
      ∙ bytes-outside local 4 src.base src.write_cur stored word_src in
    let dst_same =
      bytes-outside local 4 dst.base dst.write_cur stored
        (shorter local dst.base dst.write_cur dst.size w.cursor word_dst) in
    let r = r2.1 in
    let at_end = r.base + r.write_cur in
    let done1 : r1 ≡ (true, r1.1, r1.2) = ap (λ b. (b, r1.1, r1.2)) a1.success in
    let done2 : r2 ≡ (true, r2.1, r2.2) = ap (λ b. (b, r2.1, r2.2)) a2.success in
    let cursor2 = a2.cursor in
    record {
      buf = r;
      mem = store8 r2.2 at_end 0;
      runs =
          same_append k local m src dst (omega (arith, w)) fuel
          ∙ part_name k local fuel m r1.2 r2.2 src dst r1.1 r some_src some_dst
              (omega (arith, readable)) (separate k local m dst some_dst open_end ∙ done1)
              (λ i lt e.
                plain i lt
                  (sym (bytes_inj m r1.2 src.base src.base src.write_cur src_same i lt) ∙ e))
              done2;
      same_base = a2.same_base ∙ base1;
      same_size = a2.same_size ∙ size1;
      value =
          bytes-outside at_end 1 r.base r.write_cur (store8-SameOutside r2.2 at_end 0)
            (inr (omega arith))
          ∙ a2.value
          ∙ ap₂ ◌++◌ (a1.value ∙ ap (λ t. t ++ (slash ∷ [])) dst_same) src_same
          ∙ append_assoc (contents m dst) (slash ∷ []) (contents m src);
      ended = rw (==_refl at_end) refl;
    }
