-- ===== src/Vfs/Invalidation.antt =====
-- VFS.invalidate_path: after a change on the host the cached listings agree with it again.
use cwhost.Base.{
  ◌≡◌, ◌≢◌, ◌≤◌, ◌∙◌, ◌⊎◌, true, false, some, List, [], ◌∷◌, length, refl, sym, ap, arith,
  Bool-cases, inl, inr,
}
use cwhost.Base.Map.{lookup, texts_eq, lookup-erase-some, lookup-erase_ne}
use cwhost.Base.Text.{Tables}
use cwhost.Vfs.{HostPath, Volume, Disk, Node, Key, key_eq, State, below, volume_for, root_path}
use cwhost.Vfs.Listing.{dropped, clear, invalidate_path}
use cwhost.Vfs.Coherence.{Coherent, fresh}

-- what is in the listing cache after some keys were dropped
record Kept (k : Key) (ns : List Node) (s out : State) : Type 0 where
  pub before : lookup k s.vfs.children_cache ≡ some ns
  pub by_name : lookup k out.vfs.by_name_cache ≡ lookup k s.vfs.by_name_cache
  pub root : out.vfs.build_root ≡ s.vfs.build_root

dropped-Kept :
    (key k : Key) (ns : List Node) (s : State)
    → lookup k (dropped key s).vfs.children_cache ≡ some ns
    → (key_eq.beq key k ≡ false) × Kept k ns s (dropped key s)
dropped-Kept key k ns s q =
    let (apart, old) = lookup-erase-some key k s.vfs.children_cache q in
    (
      apart,
      record {
        before = old;
        by_name = lookup-erase_ne key k s.vfs.by_name_cache apart;
        root = refl;
      },
    )

Kept-trans :
    (k : Key) (ns : List Node) (a b c : State) → Kept k ns a b → Kept k ns b c → Kept k ns a c
Kept-trans k ns a b c h i = record {
  before = h.before;
  by_name = i.by_name ∙ h.by_name;
  root = i.root ∙ h.root;
}

clear-Kept :
    (v : Volume) (root path : HostPath) (k : Key) (ns : List Node) (s : State)
    → lookup k (clear v root path s).vfs.children_cache ≡ some ns
    → Kept k ns s (clear v root path s)
clear-Kept v root [] k ns s q = (dropped-Kept (v, []) k ns s q).1
clear-Kept v root (c ∷ path) k ns s q = elim (Bool-cases (texts_eq.beq (c ∷ path) root)) [
  | inl stop ↦ rw stop (dropped-Kept (v, c ∷ path) k ns s (rw stop at q)).1
  | inr on ↦
      let here = dropped (v, c ∷ path) s in
      let later = clear-Kept v root path k ns here (rw on at q) in
      rw on (
        Kept-trans k ns s here (clear v root path here)
          (dropped-Kept (v, c ∷ path) k ns s later.before).1 later)
]

length-below : (root path : HostPath) → below root path ≡ true → length root ≤ length path
length-below root [] h = let e : root ≡ [] = (texts_eq.beq_iff root []).0 h in rw e (omega arith)
length-below root (c ∷ path) h = elim (Bool-cases (texts_eq.beq root (c ∷ path))) [
  | inl same ↦
      let e : root ≡ c ∷ path = (texts_eq.beq_iff root (c ∷ path)).0 same in rw e (omega arith)
  | inr under ↦
      let h1 : below root path ≡ true = rw under at h in omega (arith, length-below root path h1)
]

-- The directories from the path up to the root have no cached listing afterwards.
clear_gone :
    (v : Volume) (root path q : HostPath) (ns : List Node) (s : State)
    → below q path ≡ true
    → below root q ≡ true
    → lookup (v, q) (clear v root path s).vfs.children_cache ≢ some ns
clear_gone v root [] q ns s up down found =
    let e : q ≡ [] = (texts_eq.beq_iff q []).0 up in
    let (apart, kept) = dropped-Kept (v, []) (v, q) ns s found in
    let same = (key_eq.beq_iff (v, []) (v, q)).1 (ap (λ p. (v, p)) (sym e)) in absurd cc
clear_gone v root (c ∷ path) q ns s up down found = elim (Bool-cases (texts_eq.beq q (c ∷ path))) [
  | inl here ↦
      let e : q ≡ c ∷ path = (texts_eq.beq_iff q (c ∷ path)).0 here in
      let same = (key_eq.beq_iff (v, c ∷ path) (v, q)).1 (ap (λ p. (v, p)) (sym e)) in
      elim (Bool-cases (texts_eq.beq (c ∷ path) root)) [
        | inl stop ↦
            let (apart, kept) = dropped-Kept (v, c ∷ path) (v, q) ns s (rw stop at found) in
            absurd cc
        | inr on ↦
            let later =
              clear-Kept v root path (v, q) ns (dropped (v, c ∷ path) s) (rw on at found) in
            let (apart, kept) = dropped-Kept (v, c ∷ path) (v, q) ns s later.before in absurd cc
      ]
  | inr higher ↦
      let up1 : below q path ≡ true = rw higher at up in
      elim (Bool-cases (texts_eq.beq (c ∷ path) root)) [
        | inl stop ↦
            let e : c ∷ path ≡ root = (texts_eq.beq_iff (c ∷ path) root).0 stop in
            let long = ap length e in
            absurd (omega (arith, length-below root q down, length-below q path up1, long))
        | inr on ↦ clear_gone v root path q ns (dropped (v, c ∷ path) s) up1 down (rw on at found)
      ]
]

below_top : (path : HostPath) → below [] path ≡ true
below_top [] = refl
below_top (c ∷ path) = below_top path

-- a path is below the root of its volume
below_root :
    (build_root path : HostPath)
    → below (root_path build_root (volume_for build_root path)) path ≡ true
below_root build_root path = elim (Bool-cases (below build_root path)) [
  | inl inside ↦ rw (inside, inside) refl
  | inr outside ↦ rw outside (below_top path)
]

module _ (t : Tables) where
  -- Where the file system changes so that only listings of the path's own volume, of the path or of
  -- the directories above it, can differ, invalidating the path makes the caches agree with the file
  -- system again, if they agreed with it before.
  pub invalidate_path-Coherent :
      (before after : Disk) (path : HostPath) (s : State)
      → Coherent t before s
      → ((q : HostPath)
          → (below q (after.resolve path) ≡ false)
            ⊎ (volume_for s.vfs.build_root q ≢ volume_for s.vfs.build_root (after.resolve path))
          → fresh t after q ≡ fresh t before q)
      → Coherent t after (invalidate_path after path s)
  unfolding invalidate_path
  invalidate_path-Coherent before after path s h local =
      let p = after.resolve path in
      let v = volume_for s.vfs.build_root p in
      let root = root_path s.vfs.build_root v in
      let kept : (k : Key) (ns : List Node)
          → lookup k (clear v root p s).vfs.children_cache ≡ some ns
          → Kept k ns s (clear v root p s) =
        λ k ns q. clear-Kept v root p k ns s q in
      record {
        current = λ k ns q.
            let old = kept k ns q in
            let same : fresh t after k.1 ≡ fresh t before k.1 = elim (Bool-cases (below k.1 p)) [
              | inr apart ↦ local k.1 (inl apart)
              | inl above ↦ local k.1 (
                  inr (λ e.
                    let at : k ≡ (v, k.1) = ap (λ w. (w, k.1)) (h.of_volume k ns old.before ∙ e) in
                    let gone = clear_gone v root p k.1 ns s above (
                      ap (λ w. below (root_path s.vfs.build_root w) k.1) (sym e)
                      ∙ below_root s.vfs.build_root k.1) in
                    gone (rw (← at) q)))
            ] in
            same ∙ h.current k ns old.before;
        of_volume = λ k ns q. let old = kept k ns q in rw old.root (h.of_volume k ns old.before);
        grouped = λ k ns q.
            let old = kept k ns q in rw (old.by_name, old.root) (h.grouped k ns old.before);
      }
