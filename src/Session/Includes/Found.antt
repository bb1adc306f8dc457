-- ===== src/Session/Includes/Found.antt =====
-- session.py, Session._find_file: what the search gives.
use Prim.Native.String.{String}
use cwhost.Base.{
  ◌≡◌, refl, sym, ap, arith, Bool, true, false, ◌&&◌, not, Bool-cases, inl, inr, Option, none, some,
  List, [], ◌∷◌, if◌then◌else◌,
}
use cwhost.Base.Int.{ℤ}
use cwhost.Base.Result.{Result, ok, err}
use cwhost.Base.Action.{Action, pure, after}
use cwhost.Base.Map.{string_eq}
use cwhost.Base.Text.{Tables}
use cwhost.Vfs.{HostPath, Disk, VfsError, Node, name_of}
use cwhost.Session.Includes.{
  Roots, Search, has_char, split_slashes, file_only, walk_from, walk_slash_include, first_match,
  candidates, find_plain, remember, find_in_roots, include_search_roots, search_roots, find_file,
}

-- a chain of actions that returns has two steps that return
after-eq-ok :
    {S E A B : Type 0} (r : Result E A × S) (k : A → Action S E B) {b : B} {out : S}
    → after r k ≡ (ok b, out)
    → (a : A) × (mid : S) × (r ≡ (ok a, mid)) × (k a mid ≡ (ok b, out))
after-eq-ok (ok a, mid) k q = (a, mid, refl, q)
after-eq-ok (err e, mid) k q = let clash = ap (λ p. p.0) q in absurd cc

module _ (t : Tables) (disk : Disk) where
  open t use {casefold}

  -- a file that the search may return
  abbrev pub IsFile : Option Node → Type 0
  IsFile none = Unit {0}
  IsFile (some n) = disk.is_dir n.host_path ≡ false

  file_only-IsFile : (o : Option Node) → IsFile (file_only t disk o)
  file_only-IsFile none = tt
  file_only-IsFile (some n) = by_test (disk.is_dir n.host_path) refl
    where
      by_test : (b : Bool) → disk.is_dir n.host_path ≡ b → IsFile (if b then none else some n)
      by_test true q = tt
      by_test false q = q

  first_match-IsFile :
      (build_root : HostPath) (filename : String) (ns : List Node)
      → IsFile (first_match t disk build_root filename ns)
  first_match-IsFile build_root filename [] = tt
  first_match-IsFile build_root filename (n ∷ ns) =
      let test =
        not (disk.is_dir n.host_path)
        && string_eq.beq (casefold (name_of build_root n)) (casefold filename) in
      by_test test refl (first_match-IsFile build_root filename ns)
    where
      by_test :
          (b : Bool)
          → (not (disk.is_dir n.host_path)
              && string_eq.beq (casefold (name_of build_root n)) (casefold filename))
            ≡ b
          → IsFile (first_match t disk build_root filename ns)
          → IsFile (if b then some n else first_match t disk build_root filename ns)
      by_test true q later = ground arith
      by_test false q later = later

  -- Every file that an action returns is one.
  abbrev Yields : (Search → Result VfsError (Option Node) × Search) → Type 0
  Yields f = (s : Search) (o : Option Node) (out : Search) → f s ≡ (ok o, out) → IsFile o

  chosen-IsFile :
      (o : Option Node) (later : Search → Result VfsError (Option Node) × Search)
      → IsFile o
      → Yields later
      → Yields (λ s. elim o as (λ _. Result VfsError (Option Node) × Search) [
        | none ↦ later s
        | some n ↦ (ok (some n), s)
      ])
  chosen-IsFile none later h k s o out q = k s o out q
  chosen-IsFile (some n) later h k s o out q = let e : some n ≡ o = cc in rw (← e) h

  walk_slash_include-IsFile :
      (names : List String) (roots : List Node) → Yields (walk_slash_include t disk names roots)
  unfolding walk_slash_include
  walk_slash_include-IsFile names [] s o out q = let e : none ≡ o = cc in rw (← e) tt
  walk_slash_include-IsFile names (root ∷ roots) s o out q =
      let later = walk_slash_include-IsFile names roots in
      elim (Bool-cases (disk.is_dir root.host_path)) [
        | inr file ↦ later s o out (rw file at q)
        | inl dir ↦
            let (end, mid, walked, rest) =
              after-eq-ok (walk_from t disk root names (some root) s)
                (λ end.
                  elim (file_only t disk end)
                    as (λ _. Search → Result VfsError (Option Node) × Search) [
                      | none ↦ walk_slash_include t disk names roots
                      | some n ↦ pure (some n)
                    ])
                (rw dir at q) in
            by_end (file_only t disk end) mid o out (file_only-IsFile end) later rest
      ]
    where
      by_end :
          (o : Option Node) (s : Search) (p : Option Node) (out : Search)
          → IsFile o
          → Yields (walk_slash_include t disk names roots)
          → (elim o as (λ _. Search → Result VfsError (Option Node) × Search) [
            | none ↦ walk_slash_include t disk names roots
            | some n ↦ pure (some n)
          ])
              s
            ≡ (ok p, out)
          → IsFile p
      by_end none s p out h k q = k s p out q
      by_end (some n) s p out h k q = let e : some n ≡ p = cc in rw (← e) h

  find_plain-IsFile :
      (filename : String) (roots : List Node) → Yields (find_plain t disk filename roots)
  unfolding find_plain
  find_plain-IsFile filename [] s o out q = let e : none ≡ o = cc in rw (← e) tt
  find_plain-IsFile filename (root ∷ roots) s o out q =
      let later = find_plain-IsFile filename roots in
      let (matches, mid, found, rest) =
        after-eq-ok (candidates t disk root filename s)
          (λ matches. λ s.
            elim (first_match t disk s.vfs_state.vfs.build_root filename matches)
              as (λ _. Result VfsError (Option Node) × Search) [
                | none ↦ find_plain t disk filename roots s
                | some n ↦ (ok (some n), s)
              ])
          q in
      chosen-IsFile (first_match t disk mid.vfs_state.vfs.build_root filename matches)
        (find_plain t disk filename roots)
        (first_match-IsFile mid.vfs_state.vfs.build_root filename matches) later mid o out rest

  -- what the session remembers of a file that was found
  abbrev pub Remembered : Option Node → Search → Type 0
  Remembered none out = Unit {0}
  Remembered (some n) out = out.last_loaded ≡ some n

  remembers :
      (r : Result VfsError (Option Node) × Search) (o : Option Node) (out : Search)
      → ((p : Option Node) (mid : Search) → r ≡ (ok p, mid) → IsFile p)
      → after r (remember t disk) ≡ (ok o, out)
      → IsFile o × Remembered o out
  remembers (err e, mid) o out h q = let clash = ap (λ p. p.0) q in absurd cc
  remembers (ok none, mid) o out h q = let e : none ≡ o = cc in rw (← e) (tt, tt)
  remembers (ok (some n), mid) o out h q =
      let e : some n ≡ o = cc in
      let ends : record mid { last_loaded = some n } ≡ out = ap (λ p. p.1) q in
      rw (← e) (h (some n) mid refl, ap (λ x. x.last_loaded) (sym ends))

  find_in_roots-IsFile :
      (filename : String) (roots : List Node) (s : Search) (o : Option Node) (out : Search)
      → find_in_roots t disk filename roots s ≡ (ok o, out)
      → IsFile o × Remembered o out
  unfolding find_in_roots
  find_in_roots-IsFile filename roots s o out q = elim (Bool-cases (has_char b'/' filename)) [
    | inl slash ↦
        remembers (walk_slash_include t disk (split_slashes filename) roots s) o out
          (λ p mid e. walk_slash_include-IsFile (split_slashes filename) roots s p mid e)
          (rw slash at q)
    | inr plain ↦
        remembers (find_plain t disk filename roots s) o out
          (λ p mid e. find_plain-IsFile filename roots s p mid e) (rw plain at q)
  ]

  -- For a name without a colon, an include search that returns a node returns one that is no directory,
  -- and the session remembers it as the file that was loaded last.
  pub find_file-IsFile :
      (filename : String) (roots : Roots) (fullsearch : Bool) (dependent : ℤ) (s : Search)
      (o : Option Node) (out : Search)
      → has_char b':' filename ≡ false
      → find_file t disk filename roots fullsearch dependent s ≡ (ok o, out)
      → IsFile o × Remembered o out
  unfolding find_file search_roots
  find_file-IsFile filename roots fullsearch dependent s o out simple q =
      let (found, mid, listed, rest) =
        after-eq-ok (include_search_roots t disk roots fullsearch dependent s)
          (find_in_roots t disk filename) (rw simple at q) in
      find_in_roots-IsFile filename found mid o out rest
