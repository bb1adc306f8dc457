-- ===== src/Session/Includes.antt =====
-- session.py: the search for an include file, _include_search_roots to _find_file.
pub mod Found
use Prim.Native.String.{String}
use Prim.Native.Char.{code}
use cwhost.Base.{
  ℕ, zero, suc, ◌+◌, ◌≡◌, refl, ap, arith, Bool, true, false, ◌&&◌, ◌||◌, not, Bool-cases, inl, inr,
  Option, none, some, List, [], ◌∷◌, ◌++◌, length, get_elem?, ltb, ◌==◌, if◌then◌else◌,
}
use cwhost.Base.Int.{ℤ, pos, negsuc}
use cwhost.Base.Result.{Result, ok, err}
use cwhost.Base.Action.{Action, pure, lift, ◌>>=◌, ◌>>◌}
use cwhost.Base.Map.{string_eq}
use cwhost.Base.Text.{Tables, extend}
use cwhost.Vfs.{HostPath, Disk, VfsError, not_found, Node, State, parent, name_of}
use cwhost.Vfs.Listing.{children_named}
use cwhost.Vfs.Paths.{resolve_hfs}

-- what the search reads of the session
pub record Roots : Type 0 where
  pub files : List Node
  pub include_user : List Node
  pub include_system : List Node

-- what it changes: the VFS and self._last_loaded_node
pub record Search : Type 0 where
  pub vfs_state : State
  pub last_loaded : Option Node

-- filename.replace("\\", "/").split("/")
abbrev pub split_slashes : String → List String
split_slashes String.[] = String.[] ∷ []
split_slashes (String.◌∷◌ c name) =
    let rest = split_slashes name in
    if (code c == b'/') || (code c == 0x5C) then String.[] ∷ rest else extend c rest

-- whether a character is in a text
abbrev pub has_char : ℕ → String → Bool
has_char mark String.[] = false
has_char mark (String.◌∷◌ c name) = (code c == mark) || has_char mark name

abbrev pub first_file : List Node → Option Node
first_file [] = none
first_file (n ∷ _) = some n

abbrev pub main_or_last : Option Node → List Node → Option Node
main_or_last (some n) files = some n
main_or_last none files = first_file files

-- the file that includes: `dependent` as an index, the last loaded file, the main source
abbrev pub including : ℤ → Roots → Option Node → Option Node
including (negsuc _) roots last = main_or_last last roots.files
including (pos i) roots last = elim (get_elem? roots.files i) [
  | some n ↦ some n
  | none ↦ main_or_last last roots.files
]

module _ (t : Tables) (disk : Disk) where
  open t use {casefold}

  abbrev pub Seeks : Type 0 → Type 0
  Seeks A = Action Search VfsError A

  abbrev pub with_vfs :
      {A : Type 0} → Search → Result VfsError A × State → Result VfsError A × Search
  with_vfs s (r, out) = (r, record s { vfs_state = out })

  -- node.parent and node.children_named
  abbrev pub parent_of : Node → Seeks (Option Node)
  parent_of n s =
      (ok (parent disk n s.vfs_state).0, record s { vfs_state = (parent disk n s.vfs_state).1 })

  abbrev pub named_children : Node → String → Seeks (List Node)
  named_children n name s = with_vfs s (children_named t disk n name s.vfs_state)

  abbrev pub parent_first : Option Node → Seeks (List Node)
  parent_first none = pure []
  parent_first (some n) = parent_of n >>= λ up. elim up [ none ↦ pure [] | some p ↦ pure (p ∷ []) ]

  -- Session._include_search_roots
  unfoldable pub include_search_roots : Roots → Bool → ℤ → Seeks (List Node)
  unfolding parent
  include_search_roots roots fullsearch dependent s =
      if fullsearch
      then (ok (roots.include_user ++ roots.include_system), s)
      else (parent_first (including dependent roots s.last_loaded) >>= λ found.
            pure (found ++ (roots.include_user ++ roots.include_system)))
          s

  -- Session._node_is_under, with the number of steps that may still be taken
  unfoldable pub is_under : ℕ → Node → Node → Seeks Bool
  unfolding parent
  is_under zero cursor root = pure false
  is_under (suc fuel) cursor root =
      if cursor.id == root.id
      then pure true
      else (parent_of cursor >>= λ up. elim up [
        | none ↦ pure false
        | some p ↦ is_under fuel p root
      ])

  -- a path has as many ancestors as names
  unfoldable pub node_is_under : Node → Node → Seeks Bool
  unfolding is_under
  node_is_under n root = is_under (length n.host_path + 1) n root

  -- the first of the matches that has the name up to case
  abbrev pub first_named : HostPath → String → List Node → Option Node
  first_named build_root name [] = none
  first_named build_root name (n ∷ ns) =
      let later = first_named build_root name ns in
      if string_eq.beq (casefold (name_of build_root n)) (casefold name) then some n else later

  unfoldable pub child : Node → String → Seeks (Option Node)
  unfolding children_named
  child n name = named_children n name >>= λ matches.
      λ s. (ok (first_named s.vfs_state.vfs.build_root name matches), s)

  -- one component of a path: `none` where the walk from this root fails
  unfoldable pub component : Node → Node → String → Seeks (Option Node)
  unfolding is_under children_named parent
  component root current name =
      if string_eq.beq name "" || string_eq.beq name "."
      then pure (some current)
      else (if string_eq.beq name ".."
          then (parent_of current >>= λ up. elim up [
            | none ↦ pure none
            | some p ↦
                node_is_under p root >>= λ inside. if inside then pure (some p) else pure none
          ])
          else (if disk.is_dir current.host_path then child current name else pure none))

  unfoldable pub walk_from : Node → List String → Option Node → Seeks (Option Node)
  unfolding is_under children_named parent
  walk_from root names none = pure none
  walk_from root [] (some current) = pure (some current)
  walk_from root (name ∷ names) (some current) =
      component root current name >>= walk_from root names

  -- the result of one root: a file, or none
  abbrev pub file_only : Option Node → Option Node
  file_only none = none
  file_only (some n) = if disk.is_dir n.host_path then none else some n

  -- Session._walk_slash_include
  unfoldable pub walk_slash_include : List String → List Node → Seeks (Option Node)
  unfolding is_under children_named parent
  walk_slash_include names [] = pure none
  walk_slash_include names (root ∷ roots) =
      let later = walk_slash_include names roots in
      if disk.is_dir root.host_path
      then (walk_from root names (some root) >>= λ end. elim (file_only end) [
        | none ↦ later
        | some n ↦ pure (some n)
      ])
      else later

  -- the first file of the matches that has the name up to case
  abbrev pub first_match : HostPath → String → List Node → Option Node
  first_match build_root filename [] = none
  first_match build_root filename (n ∷ ns) =
      let later = first_match build_root filename ns in
      if not (disk.is_dir n.host_path)
        && string_eq.beq (casefold (name_of build_root n)) (casefold filename)
      then some n
      else later

  unfoldable pub candidates : Node → String → Seeks (List Node)
  unfolding children_named
  candidates root filename =
      if disk.is_dir root.host_path then named_children root filename else pure (root ∷ [])

  -- the last loop of Session._find_file
  unfoldable pub find_plain : String → List Node → Seeks (Option Node)
  unfolding children_named
  find_plain filename [] = pure none
  find_plain filename (root ∷ roots) =
      let later = find_plain filename roots in
      candidates root filename >>= λ matches. λ s.
        elim (first_match s.vfs_state.vfs.build_root filename matches) [
          | none ↦ later s
          | some n ↦ (ok (some n), s)
        ]

  -- self._last_loaded_node = node, for a node that was found
  abbrev pub remember : Option Node → Seeks (Option Node)
  remember none s = (ok none, s)
  remember (some n) s = (ok (some n), record s { last_loaded = some n })

  unfoldable pub find_in_roots : String → List Node → Seeks (Option Node)
  unfolding walk_slash_include find_plain
  find_in_roots filename roots =
      if has_char b'/' filename
      then (walk_slash_include (split_slashes filename) roots >>= remember)
      else (find_plain filename roots >>= remember)

  unfoldable pub search_roots : String → Roots → Bool → ℤ → Seeks (Option Node)
  unfolding include_search_roots walk_slash_include find_plain
  search_roots filename roots fullsearch dependent =
      include_search_roots roots fullsearch dependent >>= find_in_roots filename

  -- the current directory of an HFS path: that of the main source
  abbrev pub origin : Option Node → Seeks (Option Node)
  origin none = pure none
  origin (some n) = if disk.is_dir n.host_path then pure (some n) else parent_of n

  -- `except NotFound: pass`
  abbrev pub unless_found :
      Result VfsError Node × Search → Seeks (Option Node) → Result VfsError (Option Node) × Search
  unless_found (ok n, s) next = (ok (some n), s)
  unless_found (err (not_found name), s) next = next s
  unless_found (err e, s) next = (err e, s)

  -- Session._find_file
  unfoldable pub find_file : String → Roots → Bool → ℤ → Seeks (Option Node)
  unfolding include_search_roots walk_slash_include find_plain resolve_hfs
  find_file filename roots fullsearch dependent =
      if has_char b':' filename
      then (origin (first_file roots.files) >>= λ cwd. λ s.
          unless_found (with_vfs s (resolve_hfs t disk filename cwd s.vfs_state))
            (search_roots filename roots fullsearch dependent))
      else search_roots filename roots fullsearch dependent
