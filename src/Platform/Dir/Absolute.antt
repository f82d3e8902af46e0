-- ===== src/Platform/Dir/Absolute.antt =====
-- The path that AppendPathToPath makes of an absolute path without dots starts with a slash.
use tiny_base.Base.{
  ℕ, zero, suc, ◌+◌, ◌<◌, ◌≤◌, ◌≡◌, ◌≢◌, ◌^◌, ◌⊎◌, inl, inr, refl, sym, ◌∙◌, arith, Bool, true,
  false, Option, none, some, ◌==◌, Bool-cases, ltb,
}
use tiny_base.Base.Word.{add_usz}
use tiny_base.Mem.{Mem, store8, Disjoint}
use tiny_base.Mem.Laws.{store8-SameOutside}
use tiny_base.Memory.{Buffer, buffer, IsWritable}
use tiny_base.Memory.Search.{Kernels}
use tiny_base.Encoding.{utf8}
use tiny_base.Platform.Path.{
  slash, dot, Walk, failed, walked, walk_dirs, finish_path, append_separator, append_part,
}
use tiny_base.Platform.Dir.Rooted.{Kept, Rooted, Goes, Goes-append_dir, Goes-at_slash}
use tiny_base.Platform.Dir.Leading.{first_at_slash}

module _ (k : Kernels) (local fuel : ℕ) (src : Buffer) (m0 : Mem) (work : ℕ)
    (apart : Disjoint work 4095 src.base src.write_cur)
    (word_src : Disjoint local 4 src.base src.write_cur) (word_work : Disjoint local 4 work 4095)
    (plain : (i : ℕ) → i < src.write_cur → m0 (src.base + i) ≢ dot) where
  abbrev IsRooted : Mem → Buffer → Type 0
  IsRooted = Rooted k local fuel src m0 work apart word_src word_work

  abbrev Walks : Option (Walk k local) → Type 0
  Walks w =
      ((m : Mem) × (w ≡ some (failed m)))
      ⊎ ((tmp : Buffer) × (m : Mem) × (count : ℕ) × (read_start : ℕ) × (read_idx : ℕ) × (w
            ≡ some (walked tmp m count read_start read_idx))
          × IsRooted m tmp)

  after_slash :
      {o : Option (Bool × Buffer × Mem)} {go : Buffer → Mem → Option (Walk k local)}
      → Goes k local fuel src m0 work apart word_src word_work o
      → ((tmp' : Buffer) (m' : Mem) → IsRooted m' tmp' → Walks (go tmp' m'))
      → Walks (elim o [
        | none ↦ none
        | some (false, _, m') ↦ some (failed m')
        | some (true, tmp', m') ↦ go tmp' m'
      ])
  after_slash (false, tmp', m', e, h) next = rw e (inl (m', refl))
  after_slash (true, tmp', m', e, h) next = rw e (next tmp' m' (h refl))

  walk-Rooted :
      (rounds : ℕ) (m : Mem) (c1 c2 count read_start read_idx : ℕ) (tmp : Buffer)
      → IsRooted m tmp
      → c2 ≢ dot
      → read_idx + rounds ≤ src.write_cur
      → Walks (
          walk_dirs k local fuel
            (record { buf = src; enc = utf8 })
            utf8
            rounds
            m
            c1
            c2
            count
            read_start
            read_idx
            tmp)
  unfolding walk_dirs
  walk-Rooted zero m c1 c2 count read_start read_idx tmp c ne le =
      inr (tmp, m, count, read_start, read_idx, refl, c)
  walk-Rooted (suc rounds) m c1 c2 count read_start read_idx tmp c ne le =
      let char : ℕ = m (src.base + read_idx) in
      let ne' : char ≢ dot =
        λ e. plain read_idx (omega arith) (sym (c.kept.text read_idx (omega arith)) ∙ e) in
      elim (Bool-cases (char == slash)) [
        | inl t ↦ rw t (
            after_slash
              (Goes-at_slash k local fuel src m0 work apart word_src word_work m c1 c2 count
                read_start read_idx tmp c ne)
              (λ tmp' m' c'.
                walk-Rooted rounds m' c2 char 0 (read_idx + 1) (read_idx + 1) tmp' c' ne'
                  (omega arith)))
        | inr f ↦ rw f (
            walk-Rooted rounds m c2 char (add_usz count 1) read_start (read_idx + 1) tmp c ne'
              (omega arith))
      ]

  -- How the function ends: the path as it was, or one that starts with a slash.
  abbrev pub Ends : Buffer → Option (Bool × Buffer × Mem) → Type 0
  Ends dst r =
      (b : Bool) × (buf : Buffer) × (m : Mem) × (r ≡ some (b, buf, m))
      × ((buf ≡ dst)
          ⊎ ((buf.base ≡ work)
              × (buf.size ≡ 4095)
              × IsWritable buf
              × (0 < buf.write_cur)
              × (m work ≡ slash)))

  finish-Ends :
      (dst : Buffer) (w : Option (Walk k local))
      → Walks w
      → Ends dst (finish_path k local fuel (record { buf = src; enc = utf8 }) utf8 dst w)
  unfolding finish_path
  finish-Ends dst w (inl (m, e)) = rw e (false, dst, m, refl, inl refl)
  finish-Ends dst w (inr (tmp, m, count, read_start, read_idx, e, c)) =
      rw e (elim (Bool-cases (ltb 0 count)) [
        | inl t ↦
            rw (finish_path, t)
              (after (
                Goes-append_dir k local fuel src m0 work apart word_src word_work m read_start
                  read_idx tmp c))
        | inr f ↦ rw (finish_path, f) (after (true, tmp, m, refl, λ t. c))
      ])
    where
      after :
          {o : Option (Bool × Buffer × Mem)}
          → Goes k local fuel src m0 work apart word_src word_work o
          → Ends dst (elim o [
            | none ↦ none
            | some (false, _, m') ↦ some (false, dst, m')
            | some (true, tmp', m') ↦ some (true, tmp', store8 m' (tmp'.base + tmp'.write_cur) 0)
          ])
      after (false, tmp', m', e', h) = rw e' (false, dst, m', refl, inl refl)
      after (true, tmp', m', e', h) =
          let c' = h refl in
          let root = c'.root in
          rw e' (
            true,
            tmp',
            store8 m' (tmp'.base + tmp'.write_cur) 0,
            refl,
            inr (
              c'.kept.base,
              c'.kept.size,
              c'.kept.writable,
              c'.start,
              store8-SameOutside m' (tmp'.base + tmp'.write_cur) 0 work
                    (inl (omega (arith, c'.kept.base, c'.start)))
                  ∙ root,
            ),
          )

  first-Walks :
      (rounds : ℕ) (m : Mem) (tmp : Buffer)
      → Kept k local fuel src m0 work apart word_src word_work m tmp
      → tmp.write_cur ≡ 0
      → src.write_cur ≡ suc rounds
      → m0 (src.base + 0) ≡ slash
      → Walks (
          walk_dirs k local fuel
            (record { buf = src; enc = utf8 })
            utf8
            (suc rounds)
            m
            0
            0
            0
            0
            0
            tmp)
  unfolding walk_dirs
  first-Walks rounds m tmp c empty whole leading =
      let char : m (src.base + 0) ≡ slash = c.text 0 (omega arith) ∙ leading in
      let test : (m (src.base + 0) == slash) ≡ true = ground (arith, char) in
      rw test (
        after_slash (first_at_slash k local fuel src m0 work apart word_src word_work m tmp c empty)
          (λ tmp' m' c'.
            walk-Rooted rounds m' 0 (m (src.base + 0)) 0 1 1 tmp' c'
              (λ e. absurd (omega (arith, char, e))) (omega arith)))

  -- An absolute path without dots, appended to an empty path.
  pub append_part-Ends :
      (m : Mem)
      → ((i : ℕ) → i < src.write_cur → m (src.base + i) ≡ m0 (src.base + i))
      → 0 < src.write_cur
      → work + 4095 < 2 ^ 64
      → m0 (src.base + 0) ≡ slash
      → Ends (buffer work 0 4095) (
          append_part k local fuel m
            (record { buf = src; enc = utf8 })
            (record { buf = buffer work 0 4095; enc = utf8 }))
  unfolding append_part append_separator
  append_part-Ends m same pos room leading =
      finish-Ends (buffer work 0 4095) _ (by_length (src.write_cur) refl)
    where
      kept : Kept k local fuel src m0 work apart word_src word_work m (buffer work 0 4095)
      kept = record { base = refl; size = refl; writable = omega arith; text = same }

      by_length :
          (n : ℕ)
          → src.write_cur ≡ n
          → Walks (
              walk_dirs k local fuel
                (record { buf = src; enc = utf8 })
                utf8
                n
                m
                0
                0
                0
                0
                0
                (buffer work 0 4095))
      by_length zero e = absurd (omega arith)
      by_length (suc n) e = first-Walks n m (buffer work 0 4095) kept refl e leading
