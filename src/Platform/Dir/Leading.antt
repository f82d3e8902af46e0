-- ===== src/Platform/Dir/Leading.antt =====
-- The slash in front of an absolute path, where the path that it is appended to is empty.
use tiny_base.Base.{
  ℕ, ◌+◌, ◌≡◌, inl, inr, refl, sym, ap, ◌∙◌, arith, Bool, true, false, none, some, [], ◌∷◌,
}
use tiny_base.Base.Word.{sub_usz}
use tiny_base.Mem.{Mem, Disjoint}
use tiny_base.Memory.{Buffer, buffer}
use tiny_base.Memory.Search.{Kernels}
use tiny_base.Memory.Edit.{append_buffer_to_buffer}
use tiny_base.Memory.Edit.Spec.{Appended, Appends}
use tiny_base.Memory.Edit.Laws.{append_buffer_to_buffer-Appends}
use tiny_base.Encoding.{utf8}
use tiny_base.Strings.Append.{store_word, append_char_to_string}
use tiny_base.Strings.Append.Text.{append_string_to_string-same}
use tiny_base.Platform.Path.{slash, append_dir, at_slash}
use tiny_base.Platform.Path.Parts.{slash-Appends}
use tiny_base.Platform.Dir.Rooted.{Kept, Rooted, Goes, Kept-append, Kept-local}

module _ (k : Kernels) (local fuel : ℕ) (src : Buffer) (m0 : Mem) (work : ℕ)
    (apart : Disjoint work 4095 src.base src.write_cur)
    (word_src : Disjoint local 4 src.base src.write_cur)
    (word_work : Disjoint local 4 work 4095) where
  -- The slash in front of the text is the first byte of the path.
  first_slash :
      (m : Mem) (tmp : Buffer) (r : Bool × Buffer × Mem)
      → Kept k local fuel src m0 work apart word_src word_work m tmp
      → tmp.write_cur ≡ 0
      → Appended m tmp (slash ∷ []) r
      → Rooted k local fuel src m0 work apart word_src word_work r.2 r.1
  first_slash m tmp r c empty a =
      let kept =
        Kept-append k local fuel src m0 work apart word_src word_work m tmp (slash ∷ []) r c a in
      let one : r.1.write_cur ≡ 1 = omega (arith, a.cursor, empty) in
      let value = rw (one, empty) at (a.value) in
      let here : r.2 (r.1.base) ≡ slash = cc in
      record { kept = kept; start = omega (arith, one); root = ap r.2 (sym (kept.base)) ∙ here }

  -- The slash behind the empty name in front of it.
  leading_slash :
      (m : Mem) (tmp : Buffer)
      → Kept k local fuel src m0 work apart word_src word_work m tmp
      → tmp.write_cur ≡ 0
      → Goes k local fuel src m0 work apart word_src word_work
          (some (append_char_to_string local m slash (record { buf = tmp; enc = utf8 })))
  leading_slash m tmp c empty = by_room _ (slash-Appends k local m tmp (c.writable))
    where
      by_room :
          (r : Bool × Buffer × Mem)
          → Appends (store_word m local slash) tmp (slash ∷ []) r
          → Goes k local fuel src m0 work apart word_src word_work (some r)
      by_room r (inl a) = (
        r.0,
        r.1,
        r.2,
        refl,
        λ t.
            first_slash (store_word m local slash) tmp r
              (Kept-local k local fuel src m0 work apart word_src word_work m tmp slash c) empty a,
      )
      by_room r (inr f) = (r.0, r.1, r.2, refl, λ t. absurd (ground (arith, f.failure, t)))

  pub first_at_slash :
      (m : Mem) (tmp : Buffer)
      → Kept k local fuel src m0 work apart word_src word_work m tmp
      → tmp.write_cur ≡ 0
      → Goes k local fuel src m0 work apart word_src word_work
          (at_slash k local fuel (record { buf = src; enc = utf8 }) utf8 m 0 0 0 0 0 tmp)
  unfolding at_slash append_dir
  first_at_slash m tmp c empty =
      let part = buffer (src.base + 0) (sub_usz 0 0) 0 in
      rw (append_string_to_string-same fuel m part tmp utf8) (
        by_room (append_buffer_to_buffer m part tmp)
          (append_buffer_to_buffer-Appends m part tmp (c.writable)))
    where
      by_room :
          (r : Bool × Buffer × Mem)
          → Appends m tmp [] r
          → Goes k local fuel src m0 work apart word_src word_work (elim (some r) [
            | none ↦ none
            | some (false, tmp', m') ↦ some (false, tmp', m')
            | some (true, tmp', m') ↦
                some (append_char_to_string local m' slash (record { buf = tmp'; enc = utf8 }))
          ])
      by_room (true, tmp', m') (inl a) =
          leading_slash m' tmp'
            (Kept-append k local fuel src m0 work apart word_src word_work m tmp [] (true, tmp', m')
              c a)
            (omega (arith, a.cursor, empty))
      by_room (false, tmp', m') r = (false, tmp', m', refl, λ t. absurd (ground (arith, t)))
      by_room (true, tmp', m') (inr f) = let no' = f.failure in absurd (ground (arith, no'))
