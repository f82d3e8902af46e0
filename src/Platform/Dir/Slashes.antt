-- ===== src/Platform/Dir/Slashes.antt =====
-- The first slash that MakeDir meets: where there is none, and where it is in front.
use tiny_base.Base.{
  ℕ, zero, suc, ◌+◌, ◌<◌, ◌≤◌, ◌≡◌, ◌^◌, inl, refl, ap, ◌∙◌, arith, true, false, Option, none, some,
  ◌==◌, ne→==, le→leb, length, ==_iff,
}
use tiny_base.Mem.{Mem, store8, Disjoint}
use tiny_base.Memory.{Buffer, buffer, IsWritable, invalid_idx, return_idx_find}
use tiny_base.Memory.Search.{Kernels}
use tiny_base.Memory.Search.Spec.{IsCorrect, IsLeast, Reports}
use tiny_base.Encoding.{utf8}
use tiny_base.Encoding.Char.{encode_char}
use tiny_base.Encoding.Char.Spec.{encoded}
use tiny_base.Encoding.Char.Low.{encode_char_of_low}
use tiny_base.Strings.{String}
use tiny_base.Strings.Length.CString.{IsCString, strlen_lem}
use tiny_base.Strings.Chars.{char_in_string}
use tiny_base.Strings.Chars.Find.{low_first, CharAt, char_in_string_lem}
use tiny_base.Platform.Path.{slash, path_c_string, max_path_size}
use tiny_base.Platform.File.{System}
use tiny_base.Platform.Dir.{DirCalls, enoent, make_parents}

-- `mkdir` of an empty name fails, and changes nothing.
abbrev pub RefusesEmpty : {sys : System} → DirCalls sys → Type 0
RefusesEmpty {sys} calls =
    (s : sys.State) (m : Mem) (name : ℕ) → m name ≡ 0 → calls.mkdir s m name ≡ (some enoent, s)

pub path_c_string_lem :
    (fuel : ℕ) (m : Mem) (a n : ℕ)
    → IsCString m a n
    → n < fuel
    → n ≤ max_path_size
    → a + n < 2 ^ 64
    → path_c_string fuel m a ≡ some (record { buf = buffer a n 0; enc = utf8 })
unfolding path_c_string
path_c_string_lem fuel m a n h lt le room =
    rw (path_c_string, strlen_lem m a n fuel 0 utf8 h lt room, le→leb n max_path_size le) refl

module _ (k : Kernels) (correct : IsCorrect k) (local : ℕ) (m : Mem) (buf : Buffer)
    (w : IsWritable buf) (room : local + 4 < 2 ^ 64)
    (apart : Disjoint local 4 buf.base buf.write_cur) where
  -- The first slash, where there is none and where it is in front.
  slash_search :
      (o : Option ℕ) × IsLeast (CharAt m buf utf8 slash) o
      × Reports
          (char_in_string k local m slash (record { buf = buf; enc = utf8 }))
          0
          (buf.base)
          (length (encoded (low_first utf8) slash))
          o
  slash_search =
      let code : encode_char slash utf8 ≡ slash = encode_char_of_low utf8 slash (omega arith) in
      rw code at (
        (char_in_string_lem k local m slash (record { buf = buf; enc = utf8 }) correct
          (omega (arith, w)) (omega arith, inl (omega arith)) room apart).0)

  no_slash :
      buf.write_cur ≡ 0
      → char_in_string k local m slash (record { buf = buf; enc = utf8 }) return_idx_find
        ≡ invalid_idx
  unfolding encoded
  no_slash empty = by_place slash_search
    where
      by_place :
          (o : Option ℕ) × IsLeast (CharAt m buf utf8 slash) o
            × Reports
                (char_in_string k local m slash (record { buf = buf; enc = utf8 }))
                0
                (buf.base)
                (length (encoded (low_first utf8) slash))
                o
          → char_in_string k local m slash (record { buf = buf; enc = utf8 }) return_idx_find
            ≡ invalid_idx
      by_place (none, least, r) = r.1
      by_place (some i, least, r) = let le = least.0.0 in absurd (omega arith)

  front_slash :
      0 < buf.write_cur
      → m (buf.base) ≡ slash
      → char_in_string k local m slash (record { buf = buf; enc = utf8 }) return_idx_find ≡ 0
  unfolding encoded
  front_slash some' root = by_place slash_search
    where
      here : CharAt m buf utf8 slash 0
      here = let e : buf.base + 0 ≡ buf.base = omega arith in (omega arith, rw (e, root) refl)

      by_place :
          (o : Option ℕ) × IsLeast (CharAt m buf utf8 slash) o
            × Reports
                (char_in_string k local m slash (record { buf = buf; enc = utf8 }))
                0
                (buf.base)
                (length (encoded (low_first utf8) slash))
                o
          → char_in_string k local m slash (record { buf = buf; enc = utf8 }) return_idx_find ≡ 0
      by_place (none, least, r) = absurd (least 0 here)
      by_place (some zero, least, r) = r.1
      by_place (some (suc i), least, r) = absurd (least.1 0 (omega arith) here)

module _ {sys : System} (calls : DirCalls sys) (k : Kernels) (correct : IsCorrect k)
    (local fuel : ℕ) (empty_fails : RefusesEmpty calls) (s : sys.State) (m : Mem) (work : ℕ)
    (buf : Buffer) (w : IsWritable buf) (room : local + 4 < 2 ^ 64)
    (apart : Disjoint local 4 buf.base buf.write_cur) where
  pub parents-no_slash :
      (rounds : ℕ)
      → buf.write_cur ≡ 0
      → make_parents sys calls k local fuel (suc rounds) s m work buf ≡ some (true, buf, s, m)
  unfolding make_parents
  parents-no_slash rounds empty =
      let idx = no_slash k correct local m buf w room apart empty in
      let none' : (char_in_string k local m slash (record { buf = buf; enc = utf8 }) return_idx_find
            == invalid_idx)
          ≡ true =
        (==_iff _ invalid_idx).1 idx in
      rw none' refl

  -- The directory of the empty name in front of the first slash is tried first.
  pub parents-front_slash :
      (rounds : ℕ)
      → 0 < buf.write_cur
      → buf.base ≡ work
      → m work ≡ slash
      → (m' : Mem) × (make_parents sys calls k local fuel (suc rounds) s m work buf
          ≡ some (false, buf, s, m'))
  unfolding make_parents
  parents-front_slash rounds some' base root =
      let first : String → ℕ = λ str. char_in_string k local m slash str return_idx_find in
      let idx = front_slash k correct local m buf w room apart some' (ap m base ∙ root) in
      let at : buf.base + first (record { buf = buf; enc = utf8 }) ≡ work =
        omega (arith, idx, base) in
      let m' =
        store8 m
          (buf.base
            + char_in_string k local m slash (record { buf = buf; enc = utf8 }) return_idx_find)
          0 in
      let there : (first (record { buf = buf; enc = utf8 }) == invalid_idx) ≡ false =
        ne→== _ invalid_idx (λ e. absurd (omega (arith, idx, e))) in
      let cut : m' work ≡ 0 = ground (arith, at) in
      let refused = empty_fails s m' work cut in
      let failure : (calls.mkdir s m' work).0 ≡ some enoent = ap (λ r. r.0) refused in
      (m', rw (there, failure) (ap (λ s'. some (false, buf, s', m')) (ap (λ r. r.1) refused)))
