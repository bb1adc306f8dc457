-- ===== src/Vfs/Reach.antt =====
-- vfs.py: the calls of one VFS, and the local changes on the host that invalidate_path reports.
use Prim.Native.String.{String}
use cwhost.Base.{
  ℕ, ◌≡◌, ◌≢◌, ◌⊎◌, Bool, true, false, Option, none, some, List, [], ◌∷◌, refl, if◌then◌else◌,
}
use cwhost.Base.Result.{Result, ok, err}
use cwhost.Base.Dict.{Dict}
use cwhost.Base.Map.{Map, lookup, insert, erase, texts_eq}
use cwhost.Base.Text.{Tables}
use cwhost.Vfs.{
  HostPath, Volume, Disk, VfsError, Node, Key, key_eq, State, below, volume_for, root_path, node,
  vfs_new, parent, parent_path,
}
use cwhost.Vfs.Nodes.{IsTable, node-IsTable}
use cwhost.Vfs.Listing.{
  children, children_named, invalidate_path, clear, dropped, nodes_of, listed, cached, group,
  children_from, sort_names, look_up,
}
use cwhost.Vfs.Coherence.{
  Coherent, fresh, children-Coherent, same-Coherent, node_caches, nodes_of-IsTable,
}
use cwhost.Vfs.Invalidation.{invalidate_path-Coherent}

abbrev empty_vfs : ℕ → HostPath → Dict Node → State
empty_vfs tag path shared = record {
  vfs = record {
    tag = tag;
    build_root = path;
    nodes = [];
    ids = [];
    children_cache = [];
    by_name_cache = [];
    next_id = 2;
  };
  node_by_id = shared;
}

empty-IsTable :
    (tag : ℕ) (path : HostPath) (shared : Dict Node) → IsTable (empty_vfs tag path shared)
empty-IsTable tag path shared = record {
  keyed = λ k n q. absurd cc;
  placed = λ k n q. absurd cc;
  owned = λ k n q. absurd cc;
  listed = λ k n q. absurd cc;
  numbered = λ k n q. absurd cc;
  stored = λ k n q. absurd cc;
  shared = λ k n q. absurd cc;
  below_next = λ k n q. absurd cc;
}

-- the caches are no part of the table
recached-IsTable :
    (listings : Map Key (List Node)) (names : Map Key (Map String (List Node))) (s : State)
    → IsTable s
    → IsTable (record s { vfs = record s.vfs { children_cache = listings; by_name_cache = names } })
recached-IsTable listings names s h = record {
  keyed = h.keyed;
  placed = h.placed;
  owned = h.owned;
  listed = h.listed;
  numbered = h.numbered;
  stored = h.stored;
  shared = h.shared;
  below_next = h.below_next;
}

clear-IsTable :
    (v : Volume) (root path : HostPath) (s : State) → IsTable s → IsTable (clear v root path s)
clear-IsTable v root [] s h =
    recached-IsTable (erase (v, []) s.vfs.children_cache) (erase (v, []) s.vfs.by_name_cache) s h
clear-IsTable v root (c ∷ path) s h =
    let here : IsTable (dropped (v, c ∷ path) s) =
      recached-IsTable (erase (v, c ∷ path) s.vfs.children_cache)
        (erase (v, c ∷ path) s.vfs.by_name_cache) s h in
    elim (texts_eq.beq (c ∷ path) root)
      as (λ b.
        IsTable
          (if b then dropped (v, c ∷ path) s else clear v root path (dropped (v, c ∷ path) s))) [
            | true ↦ here
            | false ↦ clear-IsTable v root path (dropped (v, c ∷ path) s) here
          ]

invalidate_path-IsTable :
    (disk : Disk) (path : HostPath) (s : State) → IsTable s → IsTable (invalidate_path disk path s)
unfolding invalidate_path
invalidate_path-IsTable disk path s h =
    let p = disk.resolve path in
    let v = volume_for s.vfs.build_root p in clear-IsTable v (root_path s.vfs.build_root v) p s h

module _ (t : Tables) where
  empty-Coherent :
      (disk : Disk) (tag : ℕ) (path : HostPath) (shared : Dict Node)
      → Coherent t disk (empty_vfs tag path shared)
  empty-Coherent disk tag path shared = record {
    current = λ k n q. absurd cc;
    of_volume = λ k n q. absurd cc;
    grouped = λ k n q. absurd cc;
  }

  node-Coherent :
      (disk : Disk) (path : HostPath) (s : State)
      → Coherent t disk s
      → Coherent t disk (node disk path s).1
  node-Coherent disk path s h =
      same-Coherent t disk s (node disk path s).1 (node_caches disk path s) h

  parent-same :
      (disk : Disk) (n : Node) (s : State) (P : State → Type 0)
      → P s
      → P (node disk (parent_path n.host_path) s).1
      → P (parent disk n s).1
  unfolding parent
  parent-same disk n s P here there =
      elim (texts_eq.beq n.host_path (root_path s.vfs.build_root n.volume))
        as (λ b.
          P
            (if◌then◌else◌ {A = Option Node × State} b (none, s)
              (let (found, out) = node disk (parent_path n.host_path) s in (some found, out))).1) [
                | true ↦ here
                | false ↦ there
              ]

  cached-IsTable :
      (key : Key) (ns : List Node) (s : State) → IsTable s → IsTable (cached t key ns s)
  cached-IsTable key ns s h =
      recached-IsTable (insert key ns s.vfs.children_cache)
        (insert key (group t s.vfs.build_root [] ns) s.vfs.by_name_cache) s h

  listed-IsTable :
      (disk : Disk) (n : Node) (names : Option (List String)) (s : State)
      → IsTable s
      → IsTable (listed t disk n names s).1
  listed-IsTable disk n none s h = h
  listed-IsTable disk n (some names) s h =
      let out = nodes_of t disk n.host_path (sort_names t names) s in
      cached-IsTable (n.volume, n.host_path) out.0 out.1
        (nodes_of-IsTable t disk n.host_path (sort_names t names) s h)

  children_from-IsTable :
      (old : Option (List Node)) (dir : Bool) (disk : Disk) (n : Node) (s : State)
      → disk.is_dir n.host_path ≡ dir
      → IsTable s
      → IsTable (children_from t old disk n s).1
  children_from-IsTable (some found) dir disk n s at h = h
  children_from-IsTable none true disk n s at h =
      rw at (listed-IsTable disk n (disk.listing n.host_path) s h)
  children_from-IsTable none false disk n s at h =
      rw at (cached-IsTable (n.volume, n.host_path) [] s h)

  children-IsTable :
      (disk : Disk) (n : Node) (s : State) → IsTable s → IsTable (children t disk n s).1
  unfolding children
  children-IsTable disk n s h =
      children_from-IsTable (lookup (n.volume, n.host_path) s.vfs.children_cache)
        (disk.is_dir n.host_path) disk n s refl h

  look_up_state :
      (listing : Result VfsError (List Node) × State) (n : Node) (name : String)
      → (look_up t listing n name).1 ≡ listing.1
  look_up_state (ok ms, s) n name = refl
  look_up_state (err e, s) n name = refl

  children_named_state :
      (disk : Disk) (n : Node) (name : String) (s : State)
      → (children_named t disk n name s).1 ≡ (children t disk n s).1
  unfolding children_named
  children_named_state disk n name s = look_up_state (children t disk n s) n name

  -- A VFS after any calls, over what the host's files are now. A node is asked for its children if it
  -- is in the table; a change on the host is followed by `invalidate_path` of the path it changed,
  -- and alters only listings of the path or of the directories above it, on the path's volume.
  pub data Reachable : Disk → State → Type 0 where
    made :
        (disk : Disk) (tag : ℕ) (path : HostPath) (shared : Dict Node)
        → Reachable disk (vfs_new disk tag path shared)
    visit :
        {disk : Disk} {s : State} (path : HostPath)
        → Reachable disk s
        → Reachable disk (node disk path s).1
    go_up :
        {disk : Disk} {s : State} (n : Node) → Reachable disk s → Reachable disk (parent disk n s).1
    list :
        {disk : Disk} {s : State} (n : Node)
        → lookup (n.volume, n.host_path) s.vfs.nodes ≡ some n
        → Reachable disk s
        → Reachable disk (children t disk n s).1
    search :
        {disk : Disk} {s : State} (n : Node) (name : String)
        → lookup (n.volume, n.host_path) s.vfs.nodes ≡ some n
        → Reachable disk s
        → Reachable disk (children_named t disk n name s).1
    change :
        {before : Disk} {s : State} (after : Disk) (path : HostPath)
        → ((q : HostPath)
            → (below q (after.resolve path) ≡ false)
              ⊎ (volume_for s.vfs.build_root q ≢ volume_for s.vfs.build_root (after.resolve path))
            → fresh t after q ≡ fresh t before q)
        → Reachable before s
        → Reachable after (invalidate_path after path s)

  -- After any sequence of a VFS's own calls and of changes on the host, where each change is reported by
  -- `invalidate_path` and alters only listings of the path or of the directories above it on the path's
  -- volume, each canonical path has one node and each number one node, and every cached listing is what
  -- the host's file system has now. A directory that is renamed or replaced with what is below it is
  -- not such a change, and a second VFS makes no node meanwhile.
  pub Reachable-Coherent :
      {disk : Disk} {s : State} → Reachable disk s → IsTable s × Coherent t disk s
  unfolding vfs_new
  Reachable-Coherent (made disk tag path shared) =
      let empty = empty_vfs tag (disk.resolve path) shared in
      (
        node-IsTable disk (disk.resolve path) empty (empty-IsTable tag (disk.resolve path) shared),
        node-Coherent disk (disk.resolve path) empty
            (empty-Coherent disk tag (disk.resolve path) shared),
      )
  Reachable-Coherent (visit {disk} {s} path r) =
      let (table, now) = Reachable-Coherent r in
      (node-IsTable disk path s table, node-Coherent disk path s now)
  Reachable-Coherent (go_up {disk} {s} n r) =
      let (table, now) = Reachable-Coherent r in
      let up = parent_path n.host_path in
      (
        parent-same disk n s IsTable table (node-IsTable disk up s table),
        parent-same disk n s (Coherent t disk) now (node-Coherent disk up s now),
      )
  Reachable-Coherent (list {disk} {s} n at r) =
      let (table, now) = Reachable-Coherent r in
      (
        children-IsTable disk n s table,
        (children-Coherent t disk n s table now (table.placed (n.volume, n.host_path) n at)).0,
      )
  Reachable-Coherent (search {disk} {s} n name at r) =
      let (table, now) = Reachable-Coherent r in
      rw (children_named_state disk n name s) (
        children-IsTable disk n s table,
        (children-Coherent t disk n s table now (table.placed (n.volume, n.host_path) n at)).0,
      )
  Reachable-Coherent (change {before} {s} after path local r) =
      let (table, now) = Reachable-Coherent r in
      (
        invalidate_path-IsTable after path s table,
        invalidate_path-Coherent t before after path s now local,
      )
