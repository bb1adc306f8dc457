-- ===== src/Vfs.antt =====
-- vfs.py: the virtual volumes Build and Host over a file system. A host path is a list of names, the
-- last one first, as Path.resolve gives it; what the file system answers is the parameter Disk.
pub mod Nodes
pub mod Listing
pub mod Coherence
pub mod Invalidation
pub mod Names
pub mod Paths
pub mod Refs
pub mod Reach
use Prim.Native.String.{String}
use cwhost.Base.{
  ℕ, zero, suc, ◌+◌, ◌≡◌, ◌↔◌, refl, Bool, true, false, ◌&&◌, ◌||◌, Option, none, some, List, [],
  ◌∷◌, if◌then◌else◌, arith,
}
use cwhost.Base.Bytes.{Bytes}
use cwhost.Base.Dict.{Dict}
use cwhost.Base.Dict as Dict
use cwhost.Base.Map.{Map, Eq, lookup, insert, texts_eq}

-- Path
abbrev pub HostPath : Type 0
HostPath = List String

pub data Volume : Type 0 where
  build host : Volume

-- What the host's file system answers. `resolve` is Path.resolve, `listing` is Path.iterdir, with
-- `none` for its OSError.
pub record Disk : Type 0 where
  pub resolve : HostPath → HostPath
  pub is_dir : HostPath → Bool
  pub listing : HostPath → Option (List String)

-- One constructor for each `raise HostError` or `raise NotFound`.
pub data VfsError : Type 0 where
  cannot_list : HostPath → VfsError
  empty_path no_current_directory above_root unknown_volume : VfsError
  not_found component_not_found : String → VfsError
  foreign_node not_mac_roman long_name bad_name : VfsError
  unknown_volume_ref unknown_parent unknown_fsref key_error : VfsError
  fsref_size finder_info_size type_size : VfsError

-- class Node; `owner` tells the VFS objects apart. The memo _parent is left out: VFS.node gives the
-- same node again.
pub record Node : Type 0 where
  pub owner : ℕ
  pub host_path : HostPath
  pub volume : Volume
  pub id : ℕ

abbrev beq_volume : Volume → Volume → Bool
beq_volume build build = true
beq_volume host host = true
beq_volume _ _ = false

pub beq_volume_iff : (a b : Volume) → (beq_volume a b ≡ true) ↔ (a ≡ b)
beq_volume_iff build build = ground arith
beq_volume_iff host host = ground arith
beq_volume_iff build host = ((λ h. absurd cc), (λ h. absurd cc))
beq_volume_iff host build = ((λ h. absurd cc), (λ h. absurd cc))

-- the key of the tables: a volume and a path
abbrev pub Key : Type 0
Key = Volume × HostPath

abbrev beq_key : Key → Key → Bool
beq_key (v, p) (w, q) = beq_volume v w && texts_eq.beq p q

pub beq_key_iff : (a b : Key) → (beq_key a b ≡ true) ↔ (a ≡ b)
beq_key_iff (v, p) (w, q) = ground (arith, beq_volume_iff v w, texts_eq.beq_iff p q)

instance abbrev pub key_eq : Eq Key
key_eq = record { beq = beq_key; beq_iff = beq_key_iff }

-- class VFS; `tag` is the object's identity
pub record Vfs : Type 0 where
  pub tag : ℕ
  pub build_root : HostPath
  pub nodes : Map Key Node
  pub ids : Dict Node
  pub children_cache : Map Key (List Node)
  pub by_name_cache : Map Key (Map String (List Node))
  pub next_id : ℕ

-- a VFS, and the table _NODE_BY_ID that all VFS objects share
pub record State : Type 0 where
  pub vfs : Vfs
  pub node_by_id : Dict Node

-- path.relative_to(root) does not raise: the path is the root or lies below it
abbrev pub below : HostPath → HostPath → Bool
below root [] = texts_eq.beq root []
below root (name ∷ path) = texts_eq.beq root (name ∷ path) || below root path

-- path.parent
abbrev pub parent_path : HostPath → HostPath
parent_path [] = []
parent_path (_ ∷ path) = path

-- path.name
abbrev pub path_name : HostPath → String
path_name [] = ""
path_name (name ∷ _) = name

-- VFS._volume_for
abbrev pub volume_for : HostPath → HostPath → Volume
volume_for build_root path = if below build_root path then build else host

-- self._roots
abbrev pub root_path : HostPath → Volume → HostPath
root_path build_root build = build_root
root_path build_root host = []

abbrev pub known_or_new : Option Node → Key → State → Node × State
known_or_new (some found) key s = (found, s)
known_or_new none key s =
    let made : Node = record {
      owner = s.vfs.tag;
      host_path = key.1;
      volume = key.0;
      id = s.vfs.next_id;
    } in
    (
      made,
      record {
        vfs = record s.vfs {
          next_id = s.vfs.next_id + 1;
          nodes = insert key made s.vfs.nodes;
          ids = Dict.insert s.vfs.next_id made s.vfs.ids;
        };
        node_by_id = Dict.insert s.vfs.next_id made s.node_by_id;
      },
    )

-- VFS.node. The second test of the path against the build volume cannot fail and is left out.
unfoldable pub node : Disk → HostPath → State → Node × State
node disk path s =
    let resolved = disk.resolve path in
    let key : Key = (volume_for s.vfs.build_root resolved, resolved) in
    known_or_new (lookup key s.vfs.nodes) key s

-- VFS.__init__, with the root that `resolve` gives
unfoldable pub vfs_new : Disk → ℕ → HostPath → Dict Node → State
unfolding node
vfs_new disk tag path shared =
    (node disk (disk.resolve path) (record {
      vfs = record {
        tag = tag;
        build_root = disk.resolve path;
        nodes = [];
        ids = [];
        children_cache = [];
        by_name_cache = [];
        next_id = 2;
      };
      node_by_id = shared;
    })).1

-- Node.name
abbrev pub name_of : HostPath → Node → String
name_of build_root n =
    if texts_eq.beq n.host_path (root_path build_root n.volume) then "" else path_name n.host_path

-- Node.parent
unfoldable pub parent : Disk → Node → State → Option Node × State
unfolding node
parent disk n s =
    if texts_eq.beq n.host_path (root_path s.vfs.build_root n.volume)
    then (none, s)
    else (let (found, out) = node disk (parent_path n.host_path) s in (some found, out))

-- VFS._root
abbrev pub root : Disk → Volume → State → Node × State
root disk volume s = node disk (root_path s.vfs.build_root volume) s
