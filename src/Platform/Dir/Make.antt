-- ===== src/Platform/Dir/Make.antt =====
-- MakeDir of an absolute path.
use tiny_base.Base.{
  ℕ, zero, suc, ◌+◌, ◌<◌, ◌≤◌, ◌≡◌, ◌≢◌, ◌^◌, ◌⊎◌, inl, inr, refl, sym, ap, subst, ltb,
  if◌then◌else◌, ◌∙◌, arith, Bool, true, false, Option, none, some,
}
use tiny_base.Mem.{Mem, memset, Disjoint}
use tiny_base.Memory.{Buffer, buffer, IsWritable}
use tiny_base.Memory.Search.{Kernels}
use tiny_base.Memory.Search.Spec.{IsCorrect}
use tiny_base.Encoding.{utf8}
use tiny_base.Strings.Length.CString.{IsCString}
use tiny_base.Platform.Path.{
  slash, dot, path_c_string, append_array_to_path, append_part, max_path_size,
}
use tiny_base.Platform.File.{System}
use tiny_base.Platform.Dir.{DirCalls, enoent, make_parents, make_dir}
use tiny_base.Platform.Dir.Absolute.{Ends, append_part-Ends}
use tiny_base.Platform.Dir.Slashes.{
  RefusesEmpty, path_c_string_lem, parents-no_slash, parents-front_slash,
}

-- The array at `work` holds `n` of its bytes apart from the parameter.
word_part :
    (local work n : ℕ) → n ≤ 4095 → Disjoint local 4 work max_path_size → Disjoint local 4 work n
word_part local work n le (inl l) = inl l
word_part local work n le (inr r) = inr (omega arith)

module _ {sys : System} (calls : DirCalls sys) (k : Kernels) (correct : IsCorrect k)
    (local fuel : ℕ) (empty_fails : RefusesEmpty calls) (s : sys.State) (dir_path work : ℕ)
    (room_local : local + 4 < 2 ^ 64) (word_work : Disjoint local 4 work max_path_size)
    (room_work : work + max_path_size < 2 ^ 64) where
  -- What MakeDir does behind its loop.
  abbrev closing : Option (Bool × Buffer × sys.State × Mem) → Option (Bool × sys.State × Mem)
  closing r = elim r [
    | none ↦ none
    | some (false, _, s2, m3) ↦ some (false, s2, m3)
    | some (true, buf', s2, m3) ↦
        let (failure', s3) = calls.mkdir s2 m3 dir_path in
        if ltb 0 (buf'.write_cur)
        then elim failure' [ none ↦ some (true, s3, m3) | some _ ↦ some (false, s3, m3) ]
        else some (false, s2, m3)
  ]

  abbrev Ending : Buffer → Mem → Type 0
  Ending buf m2 =
      (m' : Mem) × (closing (make_parents sys calls k local (suc fuel) (suc fuel) s m2 work buf)
        ≡ some (false, s, m'))

  -- The loop of MakeDir ends at once: nothing is to be read, or the empty name fails.
  ending :
      (buf : Buffer) (m2 : Mem)
      → ((buf ≡ buffer work 0 4095)
          ⊎ ((buf.base ≡ work)
              × (buf.size ≡ 4095)
              × IsWritable buf
              × (0 < buf.write_cur)
              × (m2 work ≡ slash)))
      → Ending buf m2
  ending buf m2 (inl e) =
      subst (λ buf. Ending buf m2) (sym e)
        (rw
          (parents-no_slash calls k correct local (suc fuel) empty_fails s m2 work
            (buffer work 0 4095) (omega arith) room_local
            (word_part local work 0 (omega arith) word_work) fuel refl)
          (m2, refl))
  ending buf m2 (inr (base, size, w, start, slashed)) =
      let apart' : Disjoint local 4 (buf.base) (buf.write_cur) =
        subst (λ a. Disjoint local 4 a (buf.write_cur)) (sym base)
          (word_part local work (buf.write_cur) (omega (arith, w, size)) word_work) in
      let (m3, e) =
        parents-front_slash calls k correct local (suc fuel) empty_fails s m2 work buf w room_local
          apart' fuel start base slashed in
      rw e (m3, refl)

-- MakeDir of an absolute path without dots whose parent does not exist, for which `mkdir` gives
-- ENOENT, returns false and leaves the system as that call left it, so it creates nothing: the first
-- directory that it then tries is the one with the empty name, in front of the first slash. The
-- text ends in a null byte, is shorter than MAX_PATH_SIZE and than the fuel, and does not overlap
-- the two arrays of the functions, which do not overlap each other; all three lie in the address
-- space. The searches are correct, and `mkdir` of an empty name fails as documented.
pub make_dir-absolute :
    {sys : System} (calls : DirCalls sys) (k : Kernels) (local fuel : ℕ) (s s1 : sys.State)
    (m : Mem) (dir_path n work : ℕ)
    → IsCorrect k
    → RefusesEmpty calls
    → calls.mkdir s m dir_path ≡ (some enoent, s1)
    → IsCString m dir_path n
    → 0 < n
    → n < max_path_size
    → n < fuel
    → m dir_path ≡ slash
    → ((i : ℕ) → i < n → m (dir_path + i) ≢ dot)
    → dir_path + n < 2 ^ 64
    → local + 4 < 2 ^ 64
    → work + max_path_size < 2 ^ 64
    → Disjoint work max_path_size dir_path (n + 1)
    → Disjoint local 4 dir_path n
    → Disjoint local 4 work max_path_size
    → (m' : Mem) × (make_dir sys calls k local fuel s m dir_path work ≡ some (false, s1, m'))
unfolding make_dir append_array_to_path
make_dir-absolute {sys} calls k local zero s s1 m dir_path n work correct empty_fails first text pos
      short lt root plain room_text room_local room_work apart word_text word_work =
    absurd (omega arith)
make_dir-absolute {sys} calls k local (suc fuel) s s1 m dir_path n work correct empty_fails first
      text pos short lt root plain room_text room_local room_work apart word_text word_work =
    conclude (
      append_part-Ends k local (suc fuel) (buffer dir_path n 0) cleared work (clear_text apart)
        word_text (word_part local work 4095 (omega arith) word_work)
        (λ i l z. plain i l (sym (same i (omega arith)) ∙ z)) cleared (λ i l. refl) pos
        (omega arith) (same 0 (omega arith) ∙ ap m (omega arith) ∙ root))
  where
    cleared : Mem
    cleared = memset m work 0 max_path_size

    same : (i : ℕ) → i ≤ n → memset m work 0 max_path_size (dir_path + i) ≡ m (dir_path + i)
    same i le = by_side apart
      where
        by_side :
            Disjoint work max_path_size dir_path (n + 1)
            → memset m work 0 max_path_size (dir_path + i) ≡ m (dir_path + i)
        by_side (inl l) = ground arith
        by_side (inr r) = ground arith

    clear_text : Disjoint work max_path_size dir_path (n + 1) → Disjoint work 4095 dir_path n
    clear_text (inl l) = inl (omega arith)
    clear_text (inr r) = inr (omega arith)

    read :
        path_c_string (suc fuel) cleared dir_path
        ≡ some (record { buf = buffer dir_path n 0; enc = utf8 })
    read =
        path_c_string_lem (suc fuel) cleared dir_path n
          (λ i l z. text.0 i l (sym (same i (omega arith)) ∙ z), same n (omega arith) ∙ text.1) lt
          (omega arith) room_text

    conclude :
        Ends k local
          (suc fuel)
          (buffer dir_path n 0)
          cleared
          work
          (clear_text apart)
          word_text
          (word_part local work 4095 (omega arith) word_work)
          (λ i l z. plain i l (sym (same i (omega arith)) ∙ z))
          (buffer work 0 4095)
          (append_part k local
            (suc fuel)
            cleared
            (record { buf = buffer dir_path n 0; enc = utf8 })
            (record { buf = buffer work 0 4095; enc = utf8 }))
        → (m' : Mem) × (make_dir sys calls k local (suc fuel) s m dir_path work
            ≡ some (false, s1, m'))
    conclude (b, buf, m2, e, how) =
        let failure : (calls.mkdir s m dir_path).0 ≡ some enoent = ap (λ r. r.0) first in
        let (m', e') : (m' : Mem) × (make_dir sys calls k local (suc fuel) s m dir_path work
              ≡ some (false, (calls.mkdir s m dir_path).1, m')) =
          rw (make_dir, failure, append_array_to_path, read, e)
            (ending calls k correct local fuel empty_fails (calls.mkdir s m dir_path).1 dir_path
              work room_local word_work room_work buf m2 how) in
        (m', e' ∙ ap (λ s'. some (false, s', m')) (ap (λ r. r.1) first))
