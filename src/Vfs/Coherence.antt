-- ===== src/Vfs/Coherence.antt =====
-- The cached listings of a VFS agree with the file system.
use Prim.Native.String.{String}
use cwhost.Base.{
  ◌≡◌, ◌∙◌, Bool, true, false, Option, none, some, List, [], ◌∷◌, map, refl, ap, inl, inr,
  if◌then◌else◌,
}
use mathlib.Core.Option
use cwhost.Base.Result.{Result, ok}
use cwhost.Base.Map.{lookup, texts_eq, lookup-insert_self, lookup-insert_ne}
use cwhost.Base.Text.{Tables}
use cwhost.Vfs.{HostPath, Disk, VfsError, Node, Key, key_eq, State, volume_for, known_or_new, node}
use cwhost.Vfs.Nodes.{IsTable, node-IsTable, found_new}
use cwhost.Vfs.Listing.{
  sort_names, group, nodes_of, cached, listed, read_children, children_from, children,
}

-- a node that `node` returns has the canonical path, and the caches are as before
known_path :
    (old : Option Node) (key : Key) (s : State)
    → IsTable s
    → lookup key s.vfs.nodes ≡ old
    → (known_or_new old key s).0.host_path ≡ key.1
known_path none key s h at = refl
known_path (some n) key s h at = ap (λ k. k.1) (h.keyed key n at)

abbrev SameCaches : State → State → Type 0
SameCaches s out =
    (out.vfs.children_cache ≡ s.vfs.children_cache)
    × (out.vfs.by_name_cache ≡ s.vfs.by_name_cache)
    × (out.vfs.build_root ≡ s.vfs.build_root)

known_caches : (old : Option Node) (key : Key) (s : State) → SameCaches s (known_or_new old key s).1
known_caches none key s = (refl, refl, refl)
known_caches (some n) key s = (refl, refl, refl)

pub node_path :
    (disk : Disk) (path : HostPath) (s : State)
    → IsTable s
    → (node disk path s).0.host_path ≡ disk.resolve path
unfolding node
node_path disk path s h =
    let key : Key = (volume_for s.vfs.build_root (disk.resolve path), disk.resolve path) in
    known_path (lookup key s.vfs.nodes) key s h refl

pub node_caches : (disk : Disk) (path : HostPath) (s : State) → SameCaches s (node disk path s).1
unfolding node
node_caches disk path s =
    let key : Key = (volume_for s.vfs.build_root (disk.resolve path), disk.resolve path) in
    known_caches (lookup key s.vfs.nodes) key s

module _ (t : Tables) where
  abbrev pub resolved_in : Disk → HostPath → String → HostPath
  resolved_in disk path name = disk.resolve (name ∷ path)

  nodes_of_lem :
      (disk : Disk) (path : HostPath) (names : List String) (s : State)
      → IsTable s
      → (map (λ n. n.host_path) (nodes_of t disk path names s).0
          ≡ map (resolved_in disk path) names)
        × SameCaches s (nodes_of t disk path names s).1
        × IsTable (nodes_of t disk path names s).1
  nodes_of_lem disk path [] s h = (refl, (refl, refl, refl), h)
  nodes_of_lem disk path (name ∷ names) s h =
      let mid = (node disk (name ∷ path) s).1 in
      let (a, b, c) = node_caches disk (name ∷ path) s in
      let (hosts, (a1, b1, c1), after) =
        nodes_of_lem disk path names mid (node-IsTable disk (name ∷ path) s h) in
      (rw (node_path disk (name ∷ path) s h, hosts) refl, (a1 ∙ a, b1 ∙ b, c1 ∙ c), after)

  pub nodes_of-IsTable :
      (disk : Disk) (path : HostPath) (names : List String) (s : State)
      → IsTable s
      → IsTable (nodes_of t disk path names s).1
  nodes_of-IsTable disk path names s h = (nodes_of_lem disk path names s h).2

  -- what a listing of a directory says now
  abbrev pub fresh : Disk → HostPath → Option (List HostPath)
  fresh disk path =
      if disk.is_dir path
      then Option.map (λ names. map (resolved_in disk path) (sort_names t names))
          (disk.listing path)
      else some []

  -- Every cached listing is what the file system has, in its order, under the path's own volume, and
  -- the table by names is made of it.
  pub record Coherent (disk : Disk) (s : State) : Type 0 where
    pub current :
        (k : Key) (ns : List Node)
        → lookup k s.vfs.children_cache ≡ some ns
        → fresh disk k.1 ≡ some (map (λ n. n.host_path) ns)
    pub of_volume :
        (k : Key) (ns : List Node)
        → lookup k s.vfs.children_cache ≡ some ns
        → k.0 ≡ volume_for s.vfs.build_root k.1
    pub grouped :
        (k : Key) (ns : List Node)
        → lookup k s.vfs.children_cache ≡ some ns
        → lookup k s.vfs.by_name_cache ≡ some (group t s.vfs.build_root [] ns)

  -- an entry that is put into both caches
  cached-Coherent :
      (disk : Disk) (key : Key) (ns : List Node) (s : State)
      → Coherent disk s
      → fresh disk key.1 ≡ some (map (λ n. n.host_path) ns)
      → key.0 ≡ volume_for s.vfs.build_root key.1
      → Coherent disk (cached t key ns s)
  cached-Coherent disk key ns s h now fits = record {
    current = λ k ms q. elim (found_new key k ns ms s.vfs.children_cache q) [
      | inl (at, is) ↦ rw (← at, ← is) now
      | inr (other, old) ↦ h.current k ms old
    ];
    of_volume = λ k ms q. elim (found_new key k ns ms s.vfs.children_cache q) [
      | inl (at, is) ↦ rw (← at) fits
      | inr (other, old) ↦ h.of_volume k ms old
    ];
    grouped = λ k ms q. elim (found_new key k ns ms s.vfs.children_cache q) [
      | inl (at, is) ↦
          rw (← at, ← is)
            (lookup-insert_self key (group t s.vfs.build_root [] ns) s.vfs.by_name_cache)
      | inr (other, old) ↦
          let apart =
            lookup-insert_ne key k (group t s.vfs.build_root [] ns) s.vfs.by_name_cache other in
          apart ∙ h.grouped k ms old
    ];
  }

  -- new nodes do not touch the caches
  pub same-Coherent :
      (disk : Disk) (s out : State) → SameCaches s out → Coherent disk s → Coherent disk out
  same-Coherent disk s out (a, b, c) h = record {
    current = λ k ns q. h.current k ns (rw a at q);
    of_volume = λ k ns q. rw c (h.of_volume k ns (rw a at q));
    grouped = λ k ns q. rw (b, c) (h.grouped k ns (rw a at q));
  }

  abbrev Lists : Disk → Node → Result VfsError (List Node) × State → Type 0
  Lists disk n out =
      Coherent disk out.1
      × ((ns : List Node)
          → out.0 ≡ ok ns
          → fresh disk n.host_path ≡ some (map (λ m. m.host_path) ns))

  listed-Lists :
      (disk : Disk) (n : Node) (names : Option (List String)) (s : State)
      → IsTable s
      → Coherent disk s
      → n.volume ≡ volume_for s.vfs.build_root n.host_path
      → disk.is_dir n.host_path ≡ true
      → disk.listing n.host_path ≡ names
      → Lists disk n (listed t disk n names s)
  listed-Lists disk n none s table h fits dir at = (h, λ ns q. absurd cc)
  listed-Lists disk n (some names) s table h fits dir at =
      let (hosts, same, after) = nodes_of_lem disk n.host_path (sort_names t names) s table in
      let out = nodes_of t disk n.host_path (sort_names t names) s in
      let now : fresh disk n.host_path ≡ some (map (λ m. m.host_path) out.0) =
        rw (dir, at, hosts) refl in
      let fits1 : n.volume ≡ volume_for out.1.vfs.build_root n.host_path = rw same.2 fits in
      (
        cached-Coherent disk (n.volume, n.host_path) out.0 out.1 (same-Coherent disk s out.1 same h)
            now fits1,
        λ ns q. let e : out.0 ≡ ns = cc in rw (← e) now,
      )

  read_children-Lists :
      (dir : Bool) (disk : Disk) (n : Node) (s : State)
      → IsTable s
      → Coherent disk s
      → n.volume ≡ volume_for s.vfs.build_root n.host_path
      → disk.is_dir n.host_path ≡ dir
      → Lists disk n (read_children t dir disk n s)
  read_children-Lists true disk n s table h fits at =
      listed-Lists disk n (disk.listing n.host_path) s table h fits at refl
  read_children-Lists false disk n s table h fits at =
      let now : fresh disk n.host_path ≡ some [] = rw at refl in
      (
        cached-Coherent disk (n.volume, n.host_path) [] s h now fits,
        λ ns q. let e : [] ≡ ns = cc in rw (← e) now,
      )

  children_from-Lists :
      (old : Option (List Node)) (disk : Disk) (n : Node) (s : State)
      → IsTable s
      → Coherent disk s
      → n.volume ≡ volume_for s.vfs.build_root n.host_path
      → lookup (n.volume, n.host_path) s.vfs.children_cache ≡ old
      → Lists disk n (children_from t old disk n s)
  children_from-Lists (some found) disk n s table h fits at =
      (h, λ ns q. let e : found ≡ ns = cc in rw (← e) (h.current (n.volume, n.host_path) found at))
  children_from-Lists none disk n s table h fits at =
      read_children-Lists (disk.is_dir n.host_path) disk n s table h fits refl

  -- On caches that agree with the file system, `children` of a node of the VFS returns the canonical
  -- paths of the directory's entries in their order, or nothing for a file, whether they were cached
  -- or not; and the caches agree with the file system afterwards, also where it raises.
  pub children-Coherent :
      (disk : Disk) (n : Node) (s : State)
      → IsTable s
      → Coherent disk s
      → n.volume ≡ volume_for s.vfs.build_root n.host_path
      → Coherent disk (children t disk n s).1
        × ((ns : List Node)
            → (children t disk n s).0 ≡ ok ns
            → fresh disk n.host_path ≡ some (map (λ m. m.host_path) ns))
  unfolding children
  children-Coherent disk n s table h fits =
      children_from-Lists (lookup (n.volume, n.host_path) s.vfs.children_cache) disk n s table h
        fits refl
