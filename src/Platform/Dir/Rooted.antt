-- ===== src/Platform/Dir/Rooted.antt =====
-- A path that starts with a slash still does after another one, without dots, is appended to it.
use tiny_base.Base.{
  ℕ, ◌+◌, ◌<◌, ◌≤◌, ◌≡◌, ◌≢◌, ◌⊎◌, inl, inr, refl, ◌∙◌, arith, Bool, true, false, ◌&&◌, Option,
  none, some, List, [], ◌∷◌, length, ◌==◌, ne→==,
}
use tiny_base.Base.Word.{sub_usz}
use tiny_base.Mem.{Mem, Disjoint}
use tiny_base.Memory.{Buffer, buffer, IsWritable}
use tiny_base.Memory.Search.{Kernels}
use tiny_base.Memory.Edit.{append_buffer_to_buffer}
use tiny_base.Memory.Edit.Spec.{Appended, Appends}
use tiny_base.Memory.Edit.Laws.{append_buffer_to_buffer-Appends, Appended-IsWritable}
use tiny_base.Encoding.{utf8}
use tiny_base.Strings.Append.{store_word, append_char_to_string}
use tiny_base.Strings.Append.Local.{store_word-SameOutside}
use tiny_base.Strings.Append.Text.{append_string_to_string-same}
use tiny_base.Platform.Path.{slash, dot, append_dir, at_slash}
use tiny_base.Platform.Path.Parts.{slash-Appends}

module _ (k : Kernels) (local fuel : ℕ) (src : Buffer) (m0 : Mem) (work : ℕ)
    (apart : Disjoint work 4095 src.base src.write_cur)
    (word_src : Disjoint local 4 src.base src.write_cur)
    (word_work : Disjoint local 4 work 4095) where
  -- The path that is built, whatever it holds, and the text that is read.
  pub record Kept (m : Mem) (tmp : Buffer) : Type 0 where
    pub base : tmp.base ≡ work
    pub size : tmp.size ≡ 4095
    pub writable : IsWritable tmp
    pub text : (i : ℕ) → i < src.write_cur → m (src.base + i) ≡ m0 (src.base + i)

  -- It is not empty, and starts with a slash.
  pub record Rooted (m : Mem) (tmp : Buffer) : Type 0 where
    pub kept : Kept m tmp
    pub start : 0 < tmp.write_cur
    pub root : m work ≡ slash

  outside_text :
      (a n : ℕ)
      → work ≤ a
      → a + n ≤ work + 4095
      → (i : ℕ) → i < src.write_cur
      → (src.base + i < a) ⊎ (a + n ≤ src.base + i)
  outside_text a n lo hi i lt = by_side apart
    where
      by_side :
          Disjoint work 4095 (src.base) (src.write_cur)
          → (src.base + i < a) ⊎ (a + n ≤ src.base + i)
      by_side (inl l) = inr (omega arith)
      by_side (inr r) = inl (omega arith)

  pub Kept-append :
      (m : Mem) (tmp : Buffer) (added : List ℕ) (r : Bool × Buffer × Mem)
      → Kept m tmp
      → Appended m tmp added r
      → Kept r.2 r.1
  Kept-append m tmp added r c a = record {
    base = a.same_base ∙ c.base;
    size = a.same_size ∙ c.size;
    writable = Appended-IsWritable (c.writable) a;
    text = λ i lt.
        a.frame (src.base + i) (
          outside_text (tmp.base + tmp.write_cur) (length added) (omega (arith, c.base))
            (omega (arith, c.base, c.size, a.fits)) i lt)
        ∙ c.text i lt;
  }

  Rooted-append :
      (m : Mem) (tmp : Buffer) (added : List ℕ) (r : Bool × Buffer × Mem)
      → Rooted m tmp
      → Appended m tmp added r
      → Rooted r.2 r.1
  Rooted-append m tmp added r c a = record {
    kept = Kept-append m tmp added r (c.kept) a;
    start = omega (arith, a.cursor, c.start);
    root = a.frame work (inl (omega (arith, c.kept.base, c.start))) ∙ c.root;
  }

  pub Kept-local : (m : Mem) (tmp : Buffer) (v : ℕ) → Kept m tmp → Kept (store_word m local v) tmp
  Kept-local m tmp v c = record {
    base = c.base;
    size = c.size;
    writable = c.writable;
    text = λ i lt.
        store_word-SameOutside m local v (src.base + i) (beside i lt word_src) ∙ c.text i lt;
  }
    where
      beside :
          (i : ℕ)
          → i < src.write_cur
          → Disjoint local 4 (src.base) (src.write_cur)
          → (src.base + i < local) ⊎ (local + 4 ≤ src.base + i)
      beside i lt (inl l) = inr (omega arith)
      beside i lt (inr r) = inl (omega arith)

  Rooted-local : (m : Mem) (tmp : Buffer) (v : ℕ) → Rooted m tmp → Rooted (store_word m local v) tmp
  Rooted-local m tmp v c = record {
    kept = Kept-local m tmp v (c.kept);
    start = c.start;
    root = store_word-SameOutside m local v work (beside word_work) ∙ c.root;
  }
    where
      beside : Disjoint local 4 work 4095 → (work < local) ⊎ (local + 4 ≤ work)
      beside (inl l) = inr (omega arith)
      beside (inr r) = inl (omega arith)

  -- What a step of the loop gives: it ends the loop, or leaves a path with the slash in front.
  abbrev pub Goes : Option (Bool × Buffer × Mem) → Type 0
  Goes r =
      (b : Bool) × (tmp : Buffer) × (m : Mem) × (r ≡ some (b, tmp, m)) × (b ≡ true → Rooted m tmp)

  pub Goes-append_dir :
      (m : Mem) (read_start read_idx : ℕ) (tmp : Buffer)
      → Rooted m tmp
      → Goes (
          append_dir k local fuel (record { buf = src; enc = utf8 }) utf8 m read_start read_idx tmp)
  unfolding append_dir
  Goes-append_dir m read_start read_idx tmp c =
      let part = buffer (src.base + read_start) (sub_usz read_idx read_start) 0 in
      let r = append_buffer_to_buffer m part tmp in
      by_room r (append_string_to_string-same fuel m part tmp utf8)
        (append_buffer_to_buffer-Appends m part tmp (c.kept.writable))
    where
      by_room :
          {o : Option (Bool × Buffer × Mem)} {added : List ℕ} (r : Bool × Buffer × Mem)
          → o ≡ some r
          → Appends m tmp added r
          → Goes o
      by_room r e (inl a) = (r.0, r.1, r.2, e, λ t. Rooted-append m tmp _ r c a)
      by_room r e (inr f) = (r.0, r.1, r.2, e, λ t. absurd (ground (arith, f.failure, t)))

  Goes-slash :
      (m : Mem) (tmp : Buffer)
      → Rooted m tmp
      → Goes (some (append_char_to_string local m slash (record { buf = tmp; enc = utf8 })))
  Goes-slash m tmp c = by_room _ (slash-Appends k local m tmp (c.kept.writable))
    where
      by_room :
          (r : Bool × Buffer × Mem)
          → Appends (store_word m local slash) tmp (slash ∷ []) r
          → Goes (some r)
      by_room r (inl a) = (
        r.0,
        r.1,
        r.2,
        refl,
        λ t.
            Rooted-append (store_word m local slash) tmp (slash ∷ []) r (Rooted-local m tmp slash c)
              a,
      )
      by_room r (inr f) = (r.0, r.1, r.2, refl, λ t. absurd (ground (arith, f.failure, t)))

  -- A slash behind a name that does not end in a dot.
  pub Goes-at_slash :
      (m : Mem) (c0 c1 count read_start read_idx : ℕ) (tmp : Buffer)
      → Rooted m tmp
      → c1 ≢ dot
      → Goes (
          at_slash k local fuel
            (record { buf = src; enc = utf8 })
            utf8
            m
            c0
            c1
            count
            read_start
            read_idx
            tmp)
  unfolding at_slash
  Goes-at_slash m c0 c1 count read_start read_idx tmp c ne =
      let plain = ne→== c1 dot ne in
      rw (plain, and_false (count == 1), and_false ((count == 2) && (c0 == dot)))
        (after _ (Goes-append_dir m read_start read_idx tmp c))
    where
      and_false : (b : Bool) → (b && false) ≡ false
      and_false true = refl
      and_false false = refl

      after :
          (o : Option (Bool × Buffer × Mem))
          → Goes o
          → Goes (elim o [
            | none ↦ none
            | some (false, tmp', m') ↦ some (false, tmp', m')
            | some (true, tmp', m') ↦
                some (append_char_to_string local m' slash (record { buf = tmp'; enc = utf8 }))
          ])
      after o (false, tmp', m', e, h) =
          rw e (false, tmp', m', refl, λ t. absurd (ground (arith, t)))
      after o (true, tmp', m', e, h) = rw e (Goes-slash m' tmp' (h refl))
