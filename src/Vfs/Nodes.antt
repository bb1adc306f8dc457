-- ===== src/Vfs/Nodes.antt =====
-- The table of nodes of a VFS: each canonical path has one node, each number one node.
use cwhost.Base.{
  ℕ, ◌≡◌, ◌⊎◌, ◌<◌, ◌∙◌, false, Option, none, some, ◌==◌, refl, sym, ap, arith, Bool-cases, inl,
  inr,
}
use cwhost.Base.Dict.{Dict}
use cwhost.Base.Dict as Dict
use cwhost.Base.Map.{Map, Eq, lookup, insert, lookup-insert_self, lookup-insert_ne}
use cwhost.Vfs.{HostPath, Disk, Node, Key, key_eq, State, volume_for, known_or_new, node}

-- A node stands in the table under its volume and path, in the table of numbers under its own, and
-- in the shared table under it; the volume is that of the path, and every number is below the next.
pub record IsTable (s : State) : Type 0 where
  pub keyed : (k : Key) (n : Node) → lookup k s.vfs.nodes ≡ some n → (n.volume, n.host_path) ≡ k
  pub placed :
      (k : Key) (n : Node) → lookup k s.vfs.nodes ≡ some n → k.0 ≡ volume_for s.vfs.build_root k.1
  pub owned : (k : Key) (n : Node) → lookup k s.vfs.nodes ≡ some n → n.owner ≡ s.vfs.tag
  pub listed :
      (k : Key) (n : Node) → lookup k s.vfs.nodes ≡ some n → Dict.lookup n.id s.vfs.ids ≡ some n
  pub numbered : (i : ℕ) (n : Node) → Dict.lookup i s.vfs.ids ≡ some n → n.id ≡ i
  pub stored :
      (i : ℕ) (n : Node)
      → Dict.lookup i s.vfs.ids ≡ some n
      → lookup (n.volume, n.host_path) s.vfs.nodes ≡ some n
  pub shared :
      (i : ℕ) (n : Node) → Dict.lookup i s.vfs.ids ≡ some n → Dict.lookup i s.node_by_id ≡ some n
  pub below_next : (i : ℕ) (n : Node) → Dict.lookup i s.vfs.ids ≡ some n → i < s.vfs.next_id

-- what a table with a new entry holds
pub found_new :
    {K V : Type 0} ⦃e : Eq K⦄ (k j : K) (v w : V) (d : Map K V)
    → lookup j (insert k v d) ≡ some w
    → ((k ≡ j) × (v ≡ w)) ⊎ ((e.beq k j ≡ false) × (lookup j d ≡ some w))
found_new ⦃e⦄ k j v w d q = elim (Bool-cases (e.beq k j)) [
  | inl same ↦
      let here : lookup j (insert k v d) ≡ some v =
        rw (← (e.beq_iff k j).0 same) (lookup-insert_self k v d) in
      inl ((e.beq_iff k j).0 same, cc)
  | inr other ↦ inr (other, sym (lookup-insert_ne k j v d other) ∙ q)
]

found_number :
    {V : Type 0} (k j : ℕ) (v w : V) (d : Dict V)
    → Dict.lookup j (Dict.insert k v d) ≡ some w
    → ((k ≡ j) × (v ≡ w)) ⊎ (((k == j) ≡ false) × (Dict.lookup j d ≡ some w))
found_number k j v w d q =
    let split = Dict.lookup-insert k j v d in
    elim (Bool-cases (k == j)) [
      | inl same ↦
          let here : Dict.lookup j (Dict.insert k v d) ≡ some v = rw same at split in
          inl (ground arith, cc)
      | inr other ↦
          let there : Dict.lookup j (Dict.insert k v d) ≡ Dict.lookup j d = rw other at split in
          inr (other, sym there ∙ q)
    ]

-- an older number keeps its entry
kept_number :
    {V : Type 0} (k j : ℕ) (v : V) {w : V} (d : Dict V)
    → j < k
    → Dict.lookup j d ≡ some w
    → Dict.lookup j (Dict.insert k v d) ≡ some w
kept_number k j v d less q =
    let other : (k == j) ≡ false = ground arith in rw (Dict.lookup-insert k j v d, other) q

new_number : {V : Type 0} (k : ℕ) (v : V) (d : Dict V) → Dict.lookup k (Dict.insert k v d) ≡ some v
new_number k v d = rw (Dict.lookup-insert k k v d) (ground arith)

abbrev new_node : Key → State → Node
new_node key s = record { owner = s.vfs.tag; host_path = key.1; volume = key.0; id = s.vfs.next_id }

new-IsTable :
    (key : Key) (s : State)
    → IsTable s
    → key.0 ≡ volume_for s.vfs.build_root key.1
    → lookup key s.vfs.nodes ≡ none
    → IsTable (known_or_new none key s).1
new-IsTable key s h fits absent =
    let made = new_node key s in
    let i = s.vfs.next_id in
    record {
      keyed = λ k n q. elim (found_new key k made n s.vfs.nodes q) [
        | inl (at, is) ↦ rw (← is) at
        | inr (other, old) ↦ h.keyed k n old
      ];
      placed = λ k n q. elim (found_new key k made n s.vfs.nodes q) [
        | inl (at, is) ↦ rw (← at) fits
        | inr (other, old) ↦ h.placed k n old
      ];
      owned = λ k n q. elim (found_new key k made n s.vfs.nodes q) [
        | inl (at, is) ↦ rw (← is) refl
        | inr (other, old) ↦ h.owned k n old
      ];
      listed = λ k n q. elim (found_new key k made n s.vfs.nodes q) [
        | inl (at, is) ↦ rw (← is) (new_number i made s.vfs.ids)
        | inr (other, old) ↦
            let there = h.listed k n old in
            kept_number i n.id made s.vfs.ids (h.below_next n.id n there) there
      ];
      numbered = λ j n q. elim (found_number i j made n s.vfs.ids q) [
        | inl (at, is) ↦ rw (← is) at
        | inr (other, old) ↦ h.numbered j n old
      ];
      stored = λ j n q. elim (found_number i j made n s.vfs.ids q) [
        | inl (at, is) ↦ rw (← is) (lookup-insert_self key made s.vfs.nodes)
        | inr (other, old) ↦
            let there = h.stored j n old in
            elim (Bool-cases (key_eq.beq key (n.volume, n.host_path))) [
              | inl clash ↦
                  let e : lookup key s.vfs.nodes ≡ some n =
                    ap (λ k. lookup k s.vfs.nodes)
                      ((key_eq.beq_iff key (n.volume, n.host_path)).0 clash)
                    ∙ there in
                  absurd cc
              | inr apart ↦
                  lookup-insert_ne key (n.volume, n.host_path) made s.vfs.nodes apart ∙ there
            ]
      ];
      shared = λ j n q. elim (found_number i j made n s.vfs.ids q) [
        | inl (at, is) ↦ rw (← is, ← at) (new_number i made s.node_by_id)
        | inr (other, old) ↦
            kept_number i j made s.node_by_id (h.below_next j n old) (h.shared j n old)
      ];
      below_next = λ j n q. elim (found_number i j made n s.vfs.ids q) [
        | inl (at, is) ↦ omega arith
        | inr (other, old) ↦ let less = h.below_next j n old in omega arith
      ];
    }

pub known-IsTable :
    (old : Option Node) (key : Key) (s : State)
    → IsTable s
    → key.0 ≡ volume_for s.vfs.build_root key.1
    → lookup key s.vfs.nodes ≡ old
    → IsTable (known_or_new old key s).1
known-IsTable (some n) key s h fits at = h
known-IsTable none key s h fits at = new-IsTable key s h fits at

-- VFS.node keeps the table well formed: one node for each path, one path for each number.
pub node-IsTable :
    (disk : Disk) (path : HostPath) (s : State) → IsTable s → IsTable (node disk path s).1
unfolding node
node-IsTable disk path s h =
    let p = disk.resolve path in
    known-IsTable (lookup (volume_for s.vfs.build_root p, p) s.vfs.nodes)
      (volume_for s.vfs.build_root p, p) s h refl refl
