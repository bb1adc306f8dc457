-- ===== src/Vfs/Paths.antt =====
-- vfs.py: HFS paths, FSSpec and FSRef records of a node.
use Prim.Native.String.{String}
use Prim.Native.Char.{code}
use cwhost.Base.{
  ℕ, zero, suc, ◌-◌, not, Option, none, some, List, [], ◌∷◌, ◌++◌, length, take, replicate, ltb,
  ◌==◌, if◌then◌else◌,
}
use cwhost.Base.Int.{ℤ, pos, negsuc}
use cwhost.Base.Result.{Result, ok, err, or_raise}
use cwhost.Base.Action.{Action, pure, raise, lift, raise_if, ◌>>=◌, ◌>>◌}
use cwhost.Base.Bytes.{Bytes, be32, from_be}
use cwhost.Base.Dict.{Dict}
use cwhost.Base.Dict as Dict
use cwhost.Base.Map.{string_eq}
use cwhost.Base.Text.{Tables, split, from}
use cwhost.Vfs.{
  Volume, build, host, Disk, VfsError, empty_path, no_current_directory, above_root, unknown_volume,
  not_found, component_not_found, foreign_node, not_mac_roman, long_name, unknown_volume_ref,
  unknown_parent, unknown_fsref, fsref_size, Node, State, name_of, parent, root, beq_volume,
}
use cwhost.Vfs.Listing.{children_named}

-- the leading colons of a path
abbrev pub colons : String → ℕ
colons String.[] = 0
colons (String.◌∷◌ c text) = let rest = colons text in if code c == b':' then suc rest else 0

-- [part for part in parts if part]
abbrev pub non_empty : List String → List String
non_empty [] = []
non_empty (part ∷ parts) =
    let rest = non_empty parts in if string_eq.beq part "" then rest else part ∷ rest

-- the first of the matches
abbrev pub first_of : List Node → VfsError → Result VfsError Node
first_of [] e = err e
first_of (n ∷ _) e = ok n

abbrev pub Step : Type 0 → Type 0
Step A = Action State VfsError A

module _ (t : Tables) (disk : Disk) where
  open t use {casefold, mac_roman}

  abbrev pub to_parent : Node → Step Node
  to_parent n s = let (found, out) = parent disk n s in (or_raise found above_root, out)

  -- `count` steps to the parent
  abbrev pub climb : ℕ → Node → Step Node
  climb zero n = pure n
  climb (suc count) n = to_parent n >>= climb count

  abbrev pub into : Node → String → VfsError → Step Node
  into n component e = children_named t disk n component >>= λ matches. lift (first_of matches e)

  abbrev pub step_to : Node → String → Step Node
  step_to n component =
      if string_eq.beq component "."
      then pure n
      else (if string_eq.beq component ".."
          then to_parent n
          else into n component (not_found component))

  -- the loop over the components
  abbrev pub walk : List String → Node → Step Node
  walk [] n = pure n
  walk (component ∷ components) n = step_to n component >>= walk components

  -- self._volumes.get(name.casefold())
  abbrev pub volume_named : String → Option Volume
  volume_named name =
      if string_eq.beq (casefold "Build") (casefold name)
      then some build
      else (if string_eq.beq (casefold "Host") (casefold name) then some host else none)

  abbrev pub to_root : Volume → Step Node
  to_root volume s = let (found, out) = root disk volume s in (ok found, out)

  abbrev pub resolve_absolute : List String → Step Node
  resolve_absolute [] = raise unknown_volume
  resolve_absolute (name ∷ parts) = lift (or_raise (volume_named name) unknown_volume) >>= λ volume.
      to_root volume >>= walk (non_empty parts)

  abbrev pub resolve_relative : ℕ → String → Option Node → Step Node
  resolve_relative leading path none = raise no_current_directory
  resolve_relative leading path (some cwd) =
      climb (leading - 1) cwd >>= walk (non_empty (split b':' (from leading path)))

  -- VFS.resolve_hfs
  unfoldable pub resolve_hfs : String → Option Node → Step Node
  unfolding parent children_named
  resolve_hfs path cwd =
      if string_eq.beq path ""
      then raise empty_path
      else (if colons path == 0
          then resolve_absolute (split b':' path)
          else resolve_relative (colons path) path cwd)

  -- the FSSpec of a node: the volume's reference number, the parent's number, the Pascal name
  abbrev pub volume_ref : Volume → ℤ
  volume_ref build = negsuc 0
  volume_ref host = negsuc 1

  abbrev pub number_or_root : Option Node → ℕ
  number_or_root none = 2
  number_or_root (some n) = n.id

  -- VFS.fsspec
  unfoldable pub fsspec : Node → Step (ℤ × ℕ × Bytes)
  unfolding parent
  fsspec n s =
      (raise_if (not (n.owner == s.vfs.tag)) foreign_node
          >> (λ s. let (found, out) = parent disk n s in (ok (number_or_root found), out))
          >>= λ parent_id.
              lift (or_raise (mac_roman (name_of s.vfs.build_root n)) not_mac_roman) >>= λ name.
              raise_if (ltb 63 (length name)) long_name
              >> pure (volume_ref n.volume, parent_id, length name ∷ name))
        s

  -- the directory of an FSSpec
  abbrev pub volume_of_ref : ℤ → Option Volume
  volume_of_ref (pos _) = none
  volume_of_ref (negsuc zero) = some build
  volume_of_ref (negsuc (suc zero)) = some host
  volume_of_ref (negsuc (suc (suc _))) = none

  abbrev pub on_volume : Option Node → Volume → Option Node
  on_volume none volume = none
  on_volume (some n) volume = if beq_volume n.volume volume then some n else none

  abbrev pub directory_or_root : Option Node → Volume → ℕ → Step Node
  directory_or_root (some n) volume par_id = pure n
  directory_or_root none volume par_id =
      if par_id == 2 then to_root volume else raise unknown_parent

  -- a Pascal string without its length byte
  abbrev pub without_length : Bytes → Bytes
  without_length [] = []
  without_length (b ∷ bytes) = if b == length bytes then bytes else b ∷ bytes

  -- the loop over the components of an FSSpec's name
  abbrev pub descend : List String → Node → Step Node
  descend [] n = pure n
  descend (component ∷ components) n =
      if string_eq.beq component ""
      then descend components n
      else (into n component (component_not_found component) >>= descend components)

  -- VFS.node_from_fsspec of a name in bytes; `decode` is bytes.decode("mac_roman")
  unfoldable pub node_from_fsspec : (Bytes → String) → ℤ → ℕ → Bytes → Step Node
  unfolding children_named
  node_from_fsspec decode vref_num par_id name s =
      (lift (or_raise (volume_of_ref vref_num) unknown_volume_ref) >>= λ volume.
      directory_or_root (on_volume (Dict.lookup par_id s.vfs.ids) volume) volume par_id
      >>= λ directory. descend (split b':' (decode (without_length name))) directory)
        s

-- encode_fsref; a number that four bytes do not hold is Python's OverflowError
unfoldable pub encode_fsref : Node → Option Bytes
encode_fsref n = if ltb n.id 0x1_0000_0000 then some (be32 n.id ++ replicate 76 0) else none

-- decode_fsref
unfoldable pub decode_fsref : Bytes → Dict Node → Result VfsError Node
decode_fsref bytes node_by_id =
    if length bytes == 80
    then or_raise (Dict.lookup (from_be 0 (take 4 bytes)) node_by_id) unknown_fsref
    else err fsref_size
