-- ===== src/Platform/Dir/Listing.antt =====
-- ListFiles goes through the entries of a directory and leaves out the two that every one has.
use tiny_base.Base.{
  ℕ, zero, suc, ◌+◌, ◌<◌, ◌≡◌, refl, Bool, true, false, ◌&&◌, ◌||◌, Option, none, some, arith, List,
  [], ◌∷◌, ◌++◌, length, ◌==◌, if◌then◌else◌, Bool-cases, inl, inr,
}
use tiny_base.Mem.{Mem, bytes}
use tiny_base.Platform.Path.{dot}
use tiny_base.Platform.File.{System, has_bit}
use tiny_base.Platform.Dir.{
  DirCalls, IterDir, d_type, d_name, dt_dir, is_self_or_parent, list_loop, list_files,
}

-- An entry of a directory: its name, and its type.
pub record Entry : Type 0 where
  pub name : List ℕ
  pub kind : ℕ

-- "." or ".."
abbrev pub is_dots : List ℕ → Bool
is_dots [] = false
is_dots (x ∷ []) = x == dot
is_dots (x ∷ y ∷ []) = (x == dot) && (y == dot)
is_dots (x ∷ y ∷ z ∷ rest) = false

abbrev pub AllNonzero : List ℕ → Type 0
AllNonzero [] = Unit {0}
AllNonzero (x ∷ xs) = (0 < x) × AllNonzero xs

-- The first entry of another name, and the entries behind it.
abbrev pub next_entry : List Entry → Option (Entry × List Entry)
next_entry [] = none
next_entry (e ∷ es) = if is_dots (e.name) then next_entry es else some (e, es)

and_true : (b : Bool) → (b && true) ≡ b
and_true true = refl
and_true false = refl

second : (a b : Bool) → (a && (false || (b && true))) ≡ (a && b)
second true b = and_true b
second false b = refl

none_of : (a b : Bool) → (a && (false || (b && false))) ≡ false
none_of true true = refl
none_of true false = refl
none_of false b = refl

is_self_or_parent-is_dots :
    (m : Mem) (a : ℕ) (name : List ℕ)
    → AllNonzero name
    → bytes m a (suc (length name)) ≡ name ++ (0 ∷ [])
    → is_self_or_parent m a ≡ is_dots name
unfolding is_self_or_parent
is_self_or_parent-is_dots m a [] all e = let e0 : m a ≡ 0 = cc in rw e0 refl
is_self_or_parent-is_dots m a (x ∷ []) all e =
    let e0 : m a ≡ x = cc in let e1 : m (a + 1) ≡ 0 = cc in rw (e0, e1) (and_true (x == dot))
is_self_or_parent-is_dots m a (x ∷ y ∷ []) (_, (pos, _)) e =
    let e0 : m a ≡ x = cc in
    let e1 : m (a + 1) ≡ y = cc in
    let e2 : m (a + 1 + 1) ≡ 0 = cc in
    let third : a + 2 ≡ a + 1 + 1 = omega arith in
    let some' : (y == 0) ≡ false = ground arith in
    rw (third, e0, e1, e2, some') (second (x == dot) (y == dot))
is_self_or_parent-is_dots m a (x ∷ y ∷ z ∷ rest) (_, (pos, (pos', _))) e =
    let e1 : m (a + 1) ≡ y = cc in
    let e2 : m (a + 1 + 1) ≡ z = cc in
    let third : a + 2 ≡ a + 1 + 1 = omega arith in
    let some' : (y == 0) ≡ false = ground arith in
    let some'' : (z == 0) ≡ false = ground arith in
    rw (third, e1, e2, some', some'') (none_of (m a == dot) (y == dot))

-- The directory `dir` of the system has the entries `es` to give, and every read gives the next.
pub record ListsDirs {sys : System} (calls : DirCalls sys)
    (Listing : sys.State → (dir : ℕ) → List Entry → Type 0) : Type 0 where
  pub names :
      {s : sys.State} {dir : ℕ} {e : Entry} {es : List Entry}
      → Listing s dir (e ∷ es)
      → AllNonzero (e.name)
  pub last :
      {s : sys.State} {dir : ℕ} (m : Mem) (entry : ℕ)
      → Listing s dir []
      → (calls.readdir_r s m dir entry).0 ≡ false
  pub next :
      {s : sys.State} {dir : ℕ} {e : Entry} {es : List Entry} (m : Mem) (entry : ℕ)
      → Listing s dir (e ∷ es)
      → let (there, s', m') = calls.readdir_r s m dir entry in
        (there ≡ true)
        × Listing s' dir es
        × (m' (d_type entry) ≡ e.kind)
        × (bytes m' (d_name entry) (suc (length (e.name))) ≡ e.name ++ (0 ∷ []))

-- What ListFiles gives for the next entry of another name, or for none.
abbrev pub Gives :
    (sys : System) (calls : DirCalls sys) (Listing : sys.State → (dir : ℕ) → List Entry → Type 0)
    → IterDir
    → Option (Entry × List Entry)
    → Option (Bool × IterDir × sys.State × Mem)
    → Type 0
Gives sys calls Listing iter none r =
    (s' : sys.State) × (m' : Mem) × (r
      ≡ some (false, record iter { dir = 0 }, calls.closedir s' (iter.dir), m'))
Gives sys calls Listing iter (some (e, es)) r =
    (s' : sys.State) × (m' : Mem) × Listing s' (iter.dir) es
    × (bytes m' (d_name (iter.entry)) (suc (length (e.name))) ≡ e.name ++ (0 ∷ []))
    × (r
        ≡ some (
          true,
          record iter { filename = d_name (iter.entry); is_dir = has_bit (e.kind) dt_dir },
          s',
          m',
        ))

module _ {sys : System} (calls : DirCalls sys)
    (Listing : sys.State → (dir : ℕ) → List Entry → Type 0) (lists : ListsDirs calls Listing) where
  list_loop-next_entry :
      (es : List Entry) (fuel : ℕ) (s : sys.State) (m : Mem) (iter : IterDir)
      → length es < fuel
      → Listing s (iter.dir) es
      → Gives sys calls Listing iter (next_entry es) (list_loop sys calls fuel s m iter)
  unfolding list_loop
  list_loop-next_entry es zero s m iter lt here = absurd (omega arith)
  list_loop-next_entry [] (suc fuel) s m iter lt here =
      let stop = lists.last m (iter.entry) here in
      let r = calls.readdir_r s m (iter.dir) (iter.entry) in (r.1, r.2, rw stop refl)
  list_loop-next_entry (e ∷ es) (suc fuel) s m iter lt here =
      let (there, later, kind, name) = lists.next m (iter.entry) here in
      let (_, s', m') = calls.readdir_r s m (iter.dir) (iter.entry) in
      let dots =
        is_self_or_parent-is_dots m' (d_name (iter.entry)) (e.name) (lists.names here) name in
      elim (Bool-cases (is_dots (e.name))) [
        | inl t ↦ rw (there, dots, t) (list_loop-next_entry es fuel s' m' iter (omega arith) later)
        | inr f ↦ rw (there, dots, f) (s', m', later, name, rw kind refl)
      ]

  -- The directory of the iteration, opened now where it is not open.
  abbrev pub opened : sys.State → Mem → IterDir → ℕ × sys.State
  opened s m iter = if iter.dir == 0 then calls.opendir s m (iter.all_files_buf) else (iter.dir, s)

  -- Where the directory, opened now or by an earlier call, has the entries `es` left, ListFiles ends
  -- within one round more than these are. It gives the first of them that is not named "." or "..",
  -- with its name at Filename and bit 2 of its type as IsDir, and leaves the entries behind it to
  -- the next call; where there is none, it closes the directory and returns false.
  pub list_files-next_entry :
      (es : List Entry) (fuel : ℕ) (s : sys.State) (m : Mem) (iter : IterDir)
      → length es < fuel
      → Listing (opened s m iter).1 (opened s m iter).0 es
      → Gives sys calls Listing
          (record iter { dir = (opened s m iter).0 })
          (next_entry es)
          (list_files sys calls fuel s m iter)
  unfolding list_files
  list_files-next_entry es fuel s m iter lt here = elim (Bool-cases (iter.dir == 0)) [
    | inl t ↦ rw t (
        list_loop-next_entry es fuel (calls.opendir s m (iter.all_files_buf)).1 m
          (record iter { dir = (calls.opendir s m (iter.all_files_buf)).0 }) lt (rw t at here))
    | inr f ↦ rw f (list_loop-next_entry es fuel s m iter lt (rw f at here))
  ]
