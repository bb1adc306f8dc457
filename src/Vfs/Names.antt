-- ===== src/Vfs/Names.antt =====
-- Node.children_named: the table by names against a search through the listing.
use Prim.Native.String.{String}
use mathlib.Core.List.{append_assoc, append-nil}
use cwhost.Base.{
  ◌≡◌, ◌∙◌, Bool, true, false, Option, none, some, List, [], ◌∷◌, ◌++◌, refl, sym, ap, Bool-cases,
  inl, inr, if◌then◌else◌,
}
use cwhost.Base.Result.{Result, ok, err}
use cwhost.Base.Map.{Map, lookup, insert, string_eq, lookup-insert_self, lookup-insert_ne}
use cwhost.Base.Text.{Tables}
use cwhost.Vfs.{HostPath, Disk, VfsError, Node, Key, key_eq, State, name_of, volume_for}
use cwhost.Vfs.Nodes.{IsTable}
use cwhost.Vfs.Listing.{
  sort_names, or_none_found, group, children, look_up, children_named, children_from, read_children,
  listed, nodes_of,
}
use cwhost.Vfs.Coherence.{Coherent, children-Coherent}

module _ (t : Tables) where
  open t use {casefold}

  -- the nodes of a list whose names agree with a text up to case
  abbrev pub matching : HostPath → String → List Node → List Node
  matching build_root name [] = []
  matching build_root name (n ∷ ns) =
      let rest = matching build_root name ns in
      if string_eq.beq (casefold (name_of build_root n)) (casefold name) then n ∷ rest else rest

  group_lem :
      (build_root : HostPath) (name : String) (ns : List Node) (groups : Map String (List Node))
      → or_none_found (lookup (casefold name) (group t build_root groups ns))
        ≡ or_none_found (lookup (casefold name) groups) ++ matching build_root name ns
  group_lem build_root name [] groups =
      sym (append-nil (or_none_found (lookup (casefold name) groups)))
  group_lem build_root name (n ∷ ns) groups =
      let key = casefold (name_of build_root n) in
      let entry = or_none_found (lookup key groups) ++ n ∷ [] in
      let rest = group_lem build_root name ns (insert key entry groups) in
      elim (Bool-cases (string_eq.beq key (casefold name))) [
        | inl same ↦
            let e : key ≡ casefold name = (string_eq.beq_iff key (casefold name)).0 same in
            let here : lookup (casefold name) (insert key entry groups) ≡ some entry =
              rw (← e) (lookup-insert_self key entry groups) in
            rw same (
              rest
              ∙ (ap (λ o. or_none_found o ++ matching build_root name ns) here
                  ∙ append_assoc (or_none_found (lookup key groups)) (n ∷ [])
                      (matching build_root name ns)
                  ∙ ap (λ k. or_none_found (lookup k groups) ++ n ∷ matching build_root name ns) e))
        | inr other ↦
            let there = lookup-insert_ne key (casefold name) entry groups other in
            rw other (rest ∙ ap (λ o. or_none_found o ++ matching build_root name ns) there)
      ]

  -- a listing that `children` returned is in the cache
  abbrev InCache : Node → Result VfsError (List Node) × State → Type 0
  InCache n out =
      (ns : List Node)
      → out.0 ≡ ok ns
      → lookup (n.volume, n.host_path) out.1.vfs.children_cache ≡ some ns

  listed-InCache :
      (disk : Disk) (n : Node) (names : Option (List String)) (s : State)
      → InCache n (listed t disk n names s)
  listed-InCache disk n none s ns q = absurd cc
  listed-InCache disk n (some names) s ns q =
      let out = nodes_of t disk n.host_path (sort_names t names) s in
      let e : out.0 ≡ ns = cc in
      rw (← e) (lookup-insert_self {K = Key} (n.volume, n.host_path) out.0 out.1.vfs.children_cache)

  read_children-InCache :
      (dir : Bool) (disk : Disk) (n : Node) (s : State) → InCache n (read_children t dir disk n s)
  read_children-InCache true disk n s ns q = listed-InCache disk n (disk.listing n.host_path) s ns q
  read_children-InCache false disk n s ns q =
      let e : [] ≡ ns = cc in
      rw (← e) (lookup-insert_self {K = Key} (n.volume, n.host_path) [] s.vfs.children_cache)

  children_from-InCache :
      (old : Option (List Node)) (disk : Disk) (n : Node) (s : State)
      → lookup (n.volume, n.host_path) s.vfs.children_cache ≡ old
      → InCache n (children_from t old disk n s)
  children_from-InCache (some found) disk n s at ns q = let e : found ≡ ns = cc in rw (← e) at
  children_from-InCache none disk n s at ns q =
      read_children-InCache (disk.is_dir n.host_path) disk n s ns q

  children-InCache : (disk : Disk) (n : Node) (s : State) → InCache n (children t disk n s)
  unfolding children
  children-InCache disk n s =
      children_from-InCache (lookup (n.volume, n.host_path) s.vfs.children_cache) disk n s refl

  look_up_lem :
      (listing : Result VfsError (List Node) × State) (n : Node) (name : String) {ns : List Node}
      {groups : Map String (List Node)}
      → listing.0 ≡ ok ns
      → lookup (n.volume, n.host_path) listing.1.vfs.by_name_cache ≡ some groups
      → look_up t listing n name ≡ (ok (or_none_found (lookup (casefold name) groups)), listing.1)
  look_up_lem (ok ms, s) n name q at = rw at refl
  look_up_lem (err e, s) n name q at = absurd cc

  -- On caches that agree with the file system, `children_named` returns those of the directory's
  -- children whose names agree with the text up to case, in the listing's order, and leaves what
  -- `children` leaves.
  pub children_named-matching :
      (disk : Disk) (n : Node) (name : String) (s : State) {ns : List Node}
      → IsTable s
      → Coherent t disk s
      → n.volume ≡ volume_for s.vfs.build_root n.host_path
      → (children t disk n s).0 ≡ ok ns
      → children_named t disk n name s
        ≡ (ok (matching (children t disk n s).1.vfs.build_root name ns), (children t disk n s).1)
  unfolding children_named
  children_named-matching disk n name s {ns = ns} table h fits q =
      let out = children t disk n s in
      let after = (children-Coherent t disk n s table h fits).0 in
      let groups = after.grouped (n.volume, n.host_path) ns (children-InCache disk n s ns q) in
      look_up_lem out n name q groups
      ∙ ap (λ found. (ok found, out.1)) (group_lem out.1.vfs.build_root name ns [])
