-- ===== src/Vfs/Refs.antt =====
-- VFS.node called again, and the FSRef of a node: encode_fsref and decode_fsref of vfs.py.
use cwhost.Base.{
  ℕ, ◌+◌, ◌*◌, ◌/◌, ◌%◌, ◌≡◌, ◌<◌, ◌∙◌, Option, none, some, List, [], ◌∷◌, ◌++◌, length, take,
  replicate, ltb, refl, ap, arith, Bool-cases, inl, inr,
}
use cwhost.Base.Result.{ok}
use cwhost.Base.Bytes.{Bytes, be32, be32_value, from_be}
use cwhost.Base.Dict as Dict
use cwhost.Base.Map.{lookup, lookup-insert_self, lookup-insert_ne}
use cwhost.Vfs.{HostPath, Disk, Node, Key, key_eq, State, volume_for, known_or_new, node}
use cwhost.Vfs.Nodes.{IsTable, node-IsTable}
use cwhost.Vfs.Paths.{encode_fsref, decode_fsref}

-- the node that a call returned is in the table afterwards
known_entry :
    (old : Option Node) (key : Key) (s : State)
    → lookup key s.vfs.nodes ≡ old
    → lookup key (known_or_new old key s).1.vfs.nodes ≡ some (known_or_new old key s).0
known_entry none key s at =
    lookup-insert_self key
      (record { owner = s.vfs.tag; host_path = key.1; volume = key.0; id = s.vfs.next_id })
      s.vfs.nodes
known_entry (some n) key s at = at

-- an entry of the table stays
known_keeps :
    (old : Option Node) (key k : Key) (s : State) {n : Node}
    → lookup key s.vfs.nodes ≡ old
    → lookup k s.vfs.nodes ≡ some n
    → lookup k (known_or_new old key s).1.vfs.nodes ≡ some n
known_keeps (some m) key k s at there = there
known_keeps none key k s {n = n} at there =
    let made : Node = record {
      owner = s.vfs.tag;
      host_path = key.1;
      volume = key.0;
      id = s.vfs.next_id;
    } in
    elim (Bool-cases (key_eq.beq key k)) [
      | inl clash ↦
          let e : lookup key s.vfs.nodes ≡ some n =
            ap (λ k. lookup k s.vfs.nodes) ((key_eq.beq_iff key k).0 clash) ∙ there in
          absurd cc
      | inr apart ↦ lookup-insert_ne key k made s.vfs.nodes apart ∙ there
    ]

known_root :
    (old : Option Node) (key : Key) (s : State)
    → (known_or_new old key s).1.vfs.build_root ≡ s.vfs.build_root
known_root none key s = refl
known_root (some n) key s = refl

-- calls of `node`, one after the other
abbrev pub visited : Disk → List HostPath → State → State
visited disk [] s = s
visited disk (path ∷ paths) s = visited disk paths (node disk path s).1

-- the key of a path
abbrev key_of : Disk → HostPath → State → Key
key_of disk path s = (volume_for s.vfs.build_root (disk.resolve path), disk.resolve path)

visited_lem :
    (disk : Disk) (paths : List HostPath) (s : State) (k : Key) {n : Node}
    → IsTable s
    → lookup k s.vfs.nodes ≡ some n
    → IsTable (visited disk paths s)
      × (lookup k (visited disk paths s).vfs.nodes ≡ some n)
      × ((visited disk paths s).vfs.build_root ≡ s.vfs.build_root)
unfolding node
visited_lem disk [] s k h at = (h, at, refl)
visited_lem disk (path ∷ paths) s k h at =
    let key = key_of disk path s in
    let old = lookup key s.vfs.nodes in
    let (table, there, same) =
      visited_lem disk paths (node disk path s).1 k (node-IsTable disk path s h)
        (known_keeps old key k s refl at) in
    (table, there, same ∙ known_root old key s)

node_entry :
    (disk : Disk) (path : HostPath) (s : State)
    → lookup (key_of disk path s) (node disk path s).1.vfs.nodes ≡ some (node disk path s).0
unfolding node
node_entry disk path s =
    known_entry (lookup (key_of disk path s) s.vfs.nodes) (key_of disk path s) s refl

node_root :
    (disk : Disk) (path : HostPath) (s : State)
    → (node disk path s).1.vfs.build_root ≡ s.vfs.build_root
unfolding node
node_root disk path s = known_root (lookup (key_of disk path s) s.vfs.nodes) (key_of disk path s) s

-- After any further calls of `node`, for the same path or for others, `node` gives the same node for
-- the path, and nothing changes.
pub node-visited :
    (disk : Disk) (path : HostPath) (later : List HostPath) (s : State)
    → IsTable s
    → node disk path (visited disk later (node disk path s).1)
      ≡ ((node disk path s).0, visited disk later (node disk path s).1)
unfolding node
node-visited disk path later s h =
    let mid = (node disk path s).1 in
    let (table, there, same) =
      visited_lem disk later mid (key_of disk path s) (node-IsTable disk path s h)
        (node_entry disk path s) in
    rw (same, node_root disk path s, there) refl

from_be-be32 : (n : ℕ) (rest : Bytes) → n < 0x1_0000_0000 → from_be 0 (take 4 (be32 n ++ rest)) ≡ n
from_be-be32 n rest less =
    let e : 0 + n / 16777216 % 256 ≡ n / 16777216 % 256 = omega arith in
    ap (λ x. ((x * 256 + n / 65536 % 256) * 256 + n / 256 % 256) * 256 + n % 256) e
    ∙ be32_value n less

decode_fsref_lem :
    (i : ℕ) (rest : Bytes) {n : Node} (shared : Dict.Dict Node)
    → i < 0x1_0000_0000
    → length (be32 i ++ rest) ≡ 80
    → Dict.lookup i shared ≡ some n
    → decode_fsref (be32 i ++ rest) shared ≡ ok n
unfolding decode_fsref
decode_fsref_lem i rest shared less long at = rw (long, from_be-be32 i rest less, at) refl

-- On well-formed tables, where the table of references that all VFS objects share has this VFS's own
-- node under each of its numbers, a node that `node` returned and whose number four bytes hold is given
-- back by its FSRef, also after further calls of `node` of the same VFS. A second VFS that makes nodes
-- meanwhile is outside of this.
pub decode_fsref-encode_fsref :
    (disk : Disk) (path : HostPath) (later : List HostPath) (s : State) {bytes : Bytes}
    → IsTable s
    → encode_fsref (node disk path s).0 ≡ some bytes
    → decode_fsref bytes (visited disk later (node disk path s).1).node_by_id
      ≡ ok (node disk path s).0
unfolding encode_fsref
decode_fsref-encode_fsref disk path later s {bytes = bytes} h q =
    let n = (node disk path s).0 in
    let out = visited disk later (node disk path s).1 in
    let (table, there, same) =
      visited_lem disk later (node disk path s).1 (key_of disk path s) (node-IsTable disk path s h)
        (node_entry disk path s) in
    let shared = table.shared n.id n (table.listed (key_of disk path s) n there) in
    elim (Bool-cases (ltb n.id 0x1_0000_0000)) [
      | inl less ↦
          let found : some (be32 n.id ++ replicate 76 0) ≡ some bytes = rw less at q in
          let e : be32 n.id ++ replicate 76 0 ≡ bytes = cc in
          rw (← e)
            (decode_fsref_lem n.id (replicate 76 0) out.node_by_id (ground arith) refl shared)
      | inr more ↦ let found : none ≡ some bytes = rw more at q in absurd cc
    ]
