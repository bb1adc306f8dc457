-- ===== src/Tests/Vfs.antt =====
-- vfs.py: a build directory /b with two sources, on which Unicode's casefold is lower case.
use Prim.Native.String.{String}
use cwhost.Base.{
  map, Bool-cases, ◌≡◌, ◌≢◌, ◌⊎◌, true, false, none, some, List, [], ◌∷◌, ◌++◌, replicate, refl,
  inl, inr, if◌then◌else◌,
}
use cwhost.Base.Result.{ok, err}
use cwhost.Base.Bytes.{be32}
use cwhost.Base.Map.{lookup, string_eq, texts_eq}
use cwhost.Base.Text.{Tables, find}
use cwhost.Vfs.{
  below, HostPath, build, Disk, not_found, above_root, Node, State, key_eq, node, vfs_new,
  volume_for,
}
use cwhost.Vfs.Nodes.{IsTable}
use cwhost.Vfs.Listing.{children, children_named, invalidate_path}
use cwhost.Vfs.Coherence.{Coherent, fresh, children-Coherent}
use cwhost.Vfs.Names.{matching, children_named-matching}
use cwhost.Vfs.Paths.{resolve_hfs, encode_fsref, decode_fsref}
use cwhost.Vfs.Refs.{visited, node-visited, decode_fsref-encode_fsref}
use cwhost.Vfs.Reach.{Reachable, made, list, change, Reachable-Coherent}

abbrev pub lower : Tables
lower = record {
  casefold = λ s.
      if string_eq.beq s "Main.c"
      then "main.c"
      else (if string_eq.beq s "Build" then "build" else s);
  int_of = λ s. none;
  mac_roman = λ s. find s (("", []) ∷ ("Main.c", 77 ∷ []) ∷ []);
}

abbrev pub b_dir : HostPath
b_dir = "b" ∷ []

abbrev pub source_file : HostPath
source_file = "Main.c" ∷ b_dir

abbrev pub disk_of : List String → Disk
disk_of names = record {
  resolve = λ path. path;
  is_dir = λ path. texts_eq.beq path b_dir;
  listing = λ path. if texts_eq.beq path b_dir then some names else none;
}

abbrev pub disk : Disk
disk = disk_of ("Main.c" ∷ "a.h" ∷ [])

-- the disk after one more header is written
abbrev later_disk : Disk
later_disk = disk_of ("Main.c" ∷ "a.h" ∷ "z.h" ∷ [])

abbrev pub start : State
start = vfs_new disk 0 b_dir []

abbrev pub root_node : Node
root_node = record { owner = 0; host_path = b_dir; volume = build; id = 2 }

abbrev pub source_node : Node
source_node = record { owner = 0; host_path = source_file; volume = build; id = 4 }

-- the header sorts before the source, and is numbered first
children_in_order :
    (children lower disk root_node start).0
    ≡ ok
        (record { owner = 0; host_path = "a.h" ∷ b_dir; volume = build; id = 3 } ∷ source_node ∷ [])
unfolding children vfs_new
children_in_order = refl

resolves_any_case : (resolve_hfs lower disk "build:main.c" none start).0 ≡ ok source_node
unfolding resolve_hfs vfs_new
resolves_any_case = refl

resolves_missing : (resolve_hfs lower disk ":b.h" (some root_node) start).0 ≡ err (not_found "b.h")
unfolding resolve_hfs vfs_new
resolves_missing = refl

resolves_above : (resolve_hfs lower disk "::Main.c" (some root_node) start).0 ≡ err above_root
unfolding resolve_hfs vfs_new
resolves_above = refl

reaches : Reachable lower disk start
reaches = made disk 0 b_dir []

start-IsTable : IsTable start
start-IsTable = (Reachable-Coherent lower reaches).0

start-Coherent : Coherent lower disk start
start-Coherent = (Reachable-Coherent lower reaches).1

root_is_held : lookup (build, b_dir) start.vfs.nodes ≡ some root_node
unfolding vfs_new
root_is_held = refl

-- the root is listed, then a header is written and its path invalidated
abbrev changed_start : State
changed_start = invalidate_path later_disk ("z.h" ∷ b_dir) (children lower disk root_node start).1

elsewhere :
    (q : HostPath) → texts_eq.beq q b_dir ≡ false → fresh lower later_disk q ≡ fresh lower disk q
elsewhere q other = rw other refl

abbrev Elsewhere : (root q : HostPath) → Type 0
Elsewhere root q =
    (below q ("z.h" ∷ b_dir) ≡ false) ⊎ (volume_for root q ≢ volume_for root ("z.h" ∷ b_dir))

others : (q : HostPath) → Elsewhere b_dir q → texts_eq.beq q b_dir ≡ false
others q other = elim (Bool-cases (texts_eq.beq q b_dir)) [
  | inr apart ↦ apart
  | inl same ↦
      let e : q ≡ b_dir = (texts_eq.beq_iff q b_dir).0 same in
      absurd (elim other [
        | inl outside ↦ let inside : below q ("z.h" ∷ b_dir) ≡ true = rw e refl in cc
        | inr elsewhere ↦ elsewhere (rw e refl)
      ])
]

reaches_changed : Reachable lower later_disk changed_start
unfolding children vfs_new
reaches_changed =
    change {before = disk} later_disk ("z.h" ∷ b_dir) (λ q other. elsewhere q (others q other))
      (list root_node root_is_held reaches)

Reachable-Coherent_example : IsTable changed_start × Coherent lower later_disk changed_start
Reachable-Coherent_example = Reachable-Coherent lower reaches_changed

-- the new header is listed behind the old one
shows_the_change :
    (children_named lower later_disk root_node "z.h" changed_start).0
    ≡ ok (record { owner = 0; host_path = "z.h" ∷ b_dir; volume = build; id = 5 } ∷ [])
unfolding children children_named invalidate_path vfs_new
shows_the_change = refl

children-Coherent_example :
    Coherent lower disk (children lower disk root_node start).1
    × ((ns : List Node)
        → (children lower disk root_node start).0 ≡ ok ns
        → fresh lower disk b_dir ≡ some (map (λ m. m.host_path) ns))
unfolding vfs_new
children-Coherent_example =
    children-Coherent lower disk root_node start start-IsTable start-Coherent refl

children_named-matching_example : children_named lower disk root_node "main.c" start ≡ (
  ok (
      matching lower (children lower disk root_node start).1.vfs.build_root "main.c" (
        record { owner = 0; host_path = "a.h" ∷ b_dir; volume = build; id = 3 }
        ∷ source_node
        ∷ [])),
  (children lower disk root_node start).1,
)
unfolding vfs_new
children_named-matching_example =
    children_named-matching lower disk root_node "main.c" start start-IsTable start-Coherent refl
      children_in_order

matches_any_case : matching lower b_dir "main.c" (source_node ∷ []) ≡ source_node ∷ []
matches_any_case = refl

node-visited_example :
    node disk source_file (visited disk (b_dir ∷ []) (node disk source_file start).1)
    ≡ ((node disk source_file start).0, visited disk (b_dir ∷ []) (node disk source_file start).1)
node-visited_example = node-visited disk source_file (b_dir ∷ []) start start-IsTable

encodes_third : encode_fsref (node disk source_file start).0 ≡ some (be32 3 ++ replicate 76 0)
unfolding encode_fsref node vfs_new
encodes_third = refl

decode_fsref-encode_fsref_example :
    decode_fsref
      (be32 3 ++ replicate 76 0)
      (visited disk (("a.h" ∷ b_dir) ∷ []) (node disk source_file start).1).node_by_id
    ≡ ok (node disk source_file start).0
unfolding vfs_new
decode_fsref-encode_fsref_example =
    decode_fsref-encode_fsref disk source_file (("a.h" ∷ b_dir) ∷ []) start start-IsTable
      encodes_third
