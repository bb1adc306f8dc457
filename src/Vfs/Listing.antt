-- ===== src/Vfs/Listing.antt =====
-- vfs.py, Node.children, Node.children_named and VFS.invalidate_path: the cached listings.
use Prim.Native.String.{String}
use Prim.Native.Char.{code}
use cwhost.Base.{
  Bool, true, false, ◌&&◌, ◌||◌, Option, none, some, List, [], ◌∷◌, ◌++◌, ltb, ◌==◌, if◌then◌else◌,
}
use cwhost.Base.Result.{Result, ok, err}
use cwhost.Base.Map.{Map, lookup, insert, erase, string_eq, texts_eq}
use cwhost.Base.Text.{Tables}
use cwhost.Vfs.{
  HostPath, Volume, Disk, VfsError, cannot_list, key_error, Node, Key, key_eq, State, node, name_of,
  root_path, volume_for,
}

-- the order of Python's texts
abbrev pub str_ltb : String → String → Bool
str_ltb String.[] String.[] = false
str_ltb String.[] (String.◌∷◌ _ _) = true
str_ltb (String.◌∷◌ _ _) String.[] = false
str_ltb (String.◌∷◌ a s) (String.◌∷◌ b t) =
    ltb (code a) (code b) || ((code a == code b) && str_ltb s t)

abbrev pub or_none_found : Option (List Node) → List Node
or_none_found none = []
or_none_found (some found) = found

module _ (t : Tables) where
  open t use {casefold}

  -- the sort key (name.casefold(), name): whether the first name comes before the second
  abbrev pub before : String → String → Bool
  before a b =
      str_ltb (casefold a) (casefold b) || (string_eq.beq (casefold a) (casefold b) && str_ltb a b)

  abbrev pub put_name : String → List String → List String
  put_name name [] = name ∷ []
  put_name name (other ∷ rest) =
      let later = put_name name rest in
      if before name other then name ∷ other ∷ rest else other ∷ later

  -- sorted
  abbrev pub sort_names : List String → List String
  sort_names [] = []
  sort_names (name ∷ names) = put_name name (sort_names names)

  -- by_name.setdefault(name, []).append(child), for every child
  abbrev pub group : HostPath → Map String (List Node) → List Node → Map String (List Node)
  group build_root groups [] = groups
  group build_root groups (child ∷ children) =
      let name = casefold (name_of build_root child) in
      group build_root (insert name (or_none_found (lookup name groups) ++ child ∷ []) groups)
        children

  -- the nodes of the names of a directory
  abbrev pub nodes_of : Disk → HostPath → List String → State → List Node × State
  nodes_of disk path [] s = ([], s)
  nodes_of disk path (name ∷ names) s =
      let (first, mid) = node disk (name ∷ path) s in
      let (rest, out) = nodes_of disk path names mid in (first ∷ rest, out)

  -- the caches with a listing
  abbrev pub cached : Key → List Node → State → State
  cached key children s = record s {
    vfs = record s.vfs {
      children_cache = insert key children s.vfs.children_cache;
      by_name_cache = insert key (group s.vfs.build_root [] children) s.vfs.by_name_cache;
    };
  }

  abbrev pub listed :
      Disk → Node → Option (List String) → State → Result VfsError (List Node) × State
  listed disk n none s = (err (cannot_list n.host_path), s)
  listed disk n (some names) s =
      let (children, out) = nodes_of disk n.host_path (sort_names names) s in
      (ok children, cached (n.volume, n.host_path) children out)

  -- a listing that is not cached, of a directory or of a file
  abbrev pub read_children : Bool → Disk → Node → State → Result VfsError (List Node) × State
  read_children true disk n s = listed disk n (disk.listing n.host_path) s
  read_children false disk n s = (ok [], cached (n.volume, n.host_path) [] s)

  abbrev pub children_from :
      Option (List Node) → Disk → Node → State → Result VfsError (List Node) × State
  children_from (some found) disk n s = (ok found, s)
  children_from none disk n s = read_children (disk.is_dir n.host_path) disk n s

  -- Node.children
  unfoldable pub children : Disk → Node → State → Result VfsError (List Node) × State
  unfolding node
  children disk n s = children_from (lookup (n.volume, n.host_path) s.vfs.children_cache) disk n s

  abbrev pub named_in : Option (Map String (List Node)) → String → Result VfsError (List Node)
  named_in none name = err key_error
  named_in (some groups) name = ok (or_none_found (lookup (casefold name) groups))

  abbrev pub look_up :
      Result VfsError (List Node) × State → Node → String → Result VfsError (List Node) × State
  look_up (err e, s) n name = (err e, s)
  look_up (ok _, s) n name = (named_in (lookup (n.volume, n.host_path) s.vfs.by_name_cache) name, s)

  -- Node.children_named; where the listing is cached, `children` does nothing
  unfoldable pub children_named : Disk → Node → String → State → Result VfsError (List Node) × State
  unfolding children
  children_named disk n name s = look_up (children disk n s) n name

-- the caches without a key
abbrev pub dropped : Key → State → State
dropped key s = record s {
  vfs = record s.vfs {
    children_cache = erase key s.vfs.children_cache;
    by_name_cache = erase key s.vfs.by_name_cache;
  };
}

-- the loop of VFS.invalidate_path, from a path upwards
abbrev pub clear : Volume → HostPath → HostPath → State → State
clear volume root [] s = dropped (volume, []) s
clear volume root (name ∷ path) s =
    let here = dropped (volume, name ∷ path) s in
    let above = clear volume root path here in
    if texts_eq.beq (name ∷ path) root then here else above

-- VFS.invalidate_path
unfoldable pub invalidate_path : Disk → HostPath → State → State
invalidate_path disk path s =
    let resolved = disk.resolve path in
    let volume = volume_for s.vfs.build_root resolved in
    clear volume (root_path s.vfs.build_root volume) resolved s
