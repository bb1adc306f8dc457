-- ===== src/Memory/Heap/Blocks.antt =====
-- Ranges of addresses: how often a list of ranges covers an address, and what the list
-- operations of the heap do to that.
use cwhost.Base.{
  ℕ, suc, ◌+◌, ◌-◌, ◌≤◌, ◌<◌, max, ◌≡◌, refl, List, [], ◌∷◌, ◌++◌, arith, ltb, leb, ◌&&◌,
  if◌then◌else◌, Bool-cases, inl, inr, ◌∙◌,
}
use cwhost.Memory.Heap.{
  Block, put_sorted, sort_blocks, merge_from, merge_blocks, insert_free, total_bytes,
}

-- 1 if the range of `n` addresses from `s` on holds `x`, else 0
abbrev pub hit : ℕ → ℕ → ℕ → ℕ
hit s n x = if leb s x && ltb x (s + n) then 1 else 0

-- the number of ranges that hold `x`
abbrev pub covers : List Block → ℕ → ℕ
covers [] x = 0
covers ((s, n) ∷ bs) x = hit s n x + covers bs x

-- Every range is non-empty, starts at `lo` or later, and a gap follows it: two neighbours never touch.
abbrev pub IsSeparated : ℕ → List Block → Type 0
IsSeparated lo [] = Unit {0}
IsSeparated lo ((s, n) ∷ bs) = (lo ≤ s) × (0 < n) × IsSeparated (suc (s + n)) bs

abbrev pub AllPositive : List Block → Type 0
AllPositive [] = Unit {0}
AllPositive ((s, n) ∷ bs) = (0 < n) × AllPositive bs

-- sorted by start
abbrev pub IsSorted : ℕ → List Block → Type 0
IsSorted lo [] = Unit {0}
IsSorted lo ((s, n) ∷ bs) = (lo ≤ s) × IsSorted s bs

pub covers-append : (bs cs : List Block) (x : ℕ) → covers (bs ++ cs) x ≡ covers bs x + covers cs x
covers-append [] cs x = omega arith
covers-append (b ∷ bs) cs x = omega (arith, covers-append bs cs x)

pub IsSeparated-mono :
    (lo lo' : ℕ) (bs : List Block) → lo' ≤ lo → IsSeparated lo bs → IsSeparated lo' bs
IsSeparated-mono lo lo' [] h s = tt
IsSeparated-mono lo lo' (b ∷ bs) h s = (omega arith, s.1, s.2)

pub covers-below : (lo : ℕ) (bs : List Block) (x : ℕ) → IsSeparated lo bs → x < lo → covers bs x ≡ 0
covers-below lo [] x s h = refl
covers-below lo ((t, n) ∷ bs) x s h = ground (arith, covers-below (suc (t + n)) bs x s.2)

pub covers-put_sorted :
    (b : Block) (bs : List Block) (x : ℕ) → covers (put_sorted b bs) x ≡ hit b.0 b.1 x + covers bs x
covers-put_sorted b [] x = refl
covers-put_sorted b (c ∷ cs) x = ground (arith, covers-put_sorted b cs x)

pub covers-sort : (bs : List Block) (x : ℕ) → covers (sort_blocks bs) x ≡ covers bs x
covers-sort [] x = refl
covers-sort (b ∷ bs) x = omega (arith, covers-put_sorted b (sort_blocks bs) x, covers-sort bs x)

put_sorted-IsSorted :
    (lo : ℕ) (b : Block) (bs : List Block)
    → lo ≤ b.0
    → IsSorted lo bs
    → IsSorted lo (put_sorted b bs)
put_sorted-IsSorted lo b [] h s = (h, tt)
put_sorted-IsSorted lo b (c ∷ cs) h s = ground (arith, put_sorted-IsSorted c.0 b cs)

pub sort-IsSorted : (bs : List Block) → IsSorted 0 (sort_blocks bs)
sort-IsSorted [] = tt
sort-IsSorted (b ∷ bs) = put_sorted-IsSorted 0 b (sort_blocks bs) (omega arith) (sort-IsSorted bs)

put_sorted-AllPositive :
    (b : Block) (bs : List Block) → 0 < b.1 → AllPositive bs → AllPositive (put_sorted b bs)
put_sorted-AllPositive b [] h s = (h, tt)
put_sorted-AllPositive b (c ∷ cs) h s = ground (arith, put_sorted-AllPositive b cs)

pub sort-AllPositive : (bs : List Block) → AllPositive bs → AllPositive (sort_blocks bs)
sort-AllPositive [] h = tt
sort-AllPositive (b ∷ bs) h =
    put_sorted-AllPositive b (sort_blocks bs) h.0 (sort-AllPositive bs h.1)

IsSorted-mono : (lo lo' : ℕ) (bs : List Block) → lo' ≤ lo → IsSorted lo bs → IsSorted lo' bs
IsSorted-mono lo lo' [] h o = tt
IsSorted-mono lo lo' (b ∷ bs) h o = (omega arith, o.1)

-- Merging separates a sorted list.
pub merge_from-IsSeparated :
    (s n : ℕ) (bs : List Block)
    → 0 < n
    → IsSorted s bs
    → AllPositive bs
    → IsSeparated s (merge_from (s, n) bs)
unfolding merge_from
merge_from-IsSeparated s n [] h o p = (omega arith, h, tt)
merge_from-IsSeparated s n ((t, m) ∷ bs) h o p = elim (Bool-cases (leb t (s + n))) [
  | inl near ↦ rw near (
      merge_from-IsSeparated s (max (s + n) (t + m) - s) bs (omega arith)
        (IsSorted-mono t s bs o.0 o.1) p.1)
  | inr far ↦ rw far (
    omega arith,
    h,
    IsSeparated-mono t (suc (s + n)) (merge_from (t, m) bs) (ground arith)
        (merge_from-IsSeparated t m bs p.0 o.1 p.1),
  )
]

-- No address lies in two of the ranges.
abbrev pub IsDisjoint : List Block → Type 0
IsDisjoint bs = (x : ℕ) → covers bs x ≤ 1

-- Two ranges that share no address touch at most.
disjoint_le :
    (s n t m : ℕ) (bs : List Block) → 0 < m → s ≤ t → IsDisjoint ((s, n) ∷ (t, m) ∷ bs) → s + n ≤ t
disjoint_le s n t m bs h o d = ground (arith, d t)

-- Where a range ends as the next one starts, the two together are one range.
hit_join : (s n t m x : ℕ) → s + n ≡ t → hit s (max (s + n) (t + m) - s) x ≡ hit s n x + hit t m x
hit_join s n t m x e = ground arith

-- Merging ranges that share no address covers what they covered, and keeps their total length.
pub covers-merge_from :
    (s n : ℕ) (bs : List Block)
    → IsSorted s bs
    → AllPositive bs
    → IsDisjoint ((s, n) ∷ bs)
    → (x : ℕ) → covers (merge_from (s, n) bs) x ≡ hit s n x + covers bs x
unfolding merge_from
covers-merge_from s n [] o p d x = refl
covers-merge_from s n ((t, m) ∷ bs) o p d x = elim (Bool-cases (leb t (s + n))) [
  | inl near ↦
      let touch : s + n ≡ t = ground (arith, disjoint_le s n t m bs p.0 o.0 d) in
      let joined : IsDisjoint ((s, max (s + n) (t + m) - s) ∷ bs) =
        λ y. omega (arith, hit_join s n t m y touch, d y) in
      rw near (
        omega (
          arith,
          hit_join s n t m x touch,
          covers-merge_from s (max (s + n) (t + m) - s) bs (IsSorted-mono t s bs o.0 o.1) p.1 joined
              x,
        ))
  | inr far ↦ rw far (omega (arith, covers-merge_from t m bs o.1 p.1 (λ y. omega (arith, d y)) x))
]

pub total_bytes-merge_from :
    (s n : ℕ) (bs : List Block)
    → IsSorted s bs
    → AllPositive bs
    → IsDisjoint ((s, n) ∷ bs)
    → total_bytes (merge_from (s, n) bs) ≡ n + total_bytes bs
unfolding merge_from total_bytes
total_bytes-merge_from s n [] o p d = refl
total_bytes-merge_from s n ((t, m) ∷ bs) o p d = elim (Bool-cases (leb t (s + n))) [
  | inl near ↦
      let touch : s + n ≡ t = ground (arith, disjoint_le s n t m bs p.0 o.0 d) in
      let joined : IsDisjoint ((s, max (s + n) (t + m) - s) ∷ bs) =
        λ y. omega (arith, hit_join s n t m y touch, d y) in
      rw near (
        omega (
          arith,
          total_bytes-merge_from s (max (s + n) (t + m) - s) bs (IsSorted-mono t s bs o.0 o.1) p.1
              joined,
        ))
  | inr far ↦
      rw far (omega (arith, total_bytes-merge_from t m bs o.1 p.1 (λ y. omega (arith, d y))))
]

total_bytes-put_sorted :
    (b : Block) (bs : List Block) → total_bytes (put_sorted b bs) ≡ b.1 + total_bytes bs
unfolding total_bytes
total_bytes-put_sorted b [] = refl
total_bytes-put_sorted b (c ∷ cs) = ground (arith, total_bytes-put_sorted b cs)

pub total_bytes-sort : (bs : List Block) → total_bytes (sort_blocks bs) ≡ total_bytes bs
unfolding total_bytes
total_bytes-sort [] = refl
total_bytes-sort (b ∷ bs) =
    omega (arith, total_bytes-put_sorted b (sort_blocks bs), total_bytes-sort bs)

pub total_bytes-append :
    (bs cs : List Block) → total_bytes (bs ++ cs) ≡ total_bytes bs + total_bytes cs
unfolding total_bytes
total_bytes-append [] cs = omega arith
total_bytes-append (b ∷ bs) cs = omega (arith, total_bytes-append bs cs)

IsSeparated-AllPositive : (lo : ℕ) (bs : List Block) → IsSeparated lo bs → AllPositive bs
IsSeparated-AllPositive lo [] s = tt
IsSeparated-AllPositive lo (b ∷ bs) s = (s.1, IsSeparated-AllPositive (suc (b.0 + b.1)) bs s.2)

AllPositive-append : (bs cs : List Block) → AllPositive bs → AllPositive cs → AllPositive (bs ++ cs)
AllPositive-append [] cs p q = q
AllPositive-append (b ∷ bs) cs p q = (p.0, AllPositive-append bs cs p.1 q)

-- What a merge of a sorted list gives, for a list that may be empty.
record Merged (bs cs : List Block) : Type 0 where
  separated : IsSeparated 0 cs
  same : (x : ℕ) → covers cs x ≡ covers bs x
  total : total_bytes cs ≡ total_bytes bs

merge-Merged :
    (bs : List Block) → IsSorted 0 bs → AllPositive bs → IsDisjoint bs → Merged bs (merge_blocks bs)
merge-Merged [] o p d = record { separated = tt; same = λ x. refl; total = refl }
merge-Merged ((s, n) ∷ bs) o p d = record {
  separated =
      IsSeparated-mono s 0 (merge_from (s, n) bs) (omega arith)
        (merge_from-IsSeparated s n bs p.0 o.1 p.1);
  same = covers-merge_from s n bs o.1 p.1 d;
  total = unfold total_bytes in total_bytes-merge_from s n bs o.1 p.1 d;
}

insert_free-merge :
    (s n : ℕ) (bs : List Block)
    → 0 < n
    → insert_free s n bs ≡ merge_blocks (sort_blocks (bs ++ (s, n) ∷ []))
unfolding insert_free
insert_free-merge s n bs h = ground arith

-- What the free list is after a range was given back.
pub record Returned (s n : ℕ) (bs cs : List Block) : Type 0 where
  pub separated : IsSeparated 0 cs
  pub same : (x : ℕ) → covers cs x ≡ hit s n x + covers bs x
  pub total : total_bytes cs ≡ n + total_bytes bs

-- Giving back a range that no other free range meets: the free list stays separated, it covers
-- that range besides, and it is longer by just its length.
pub insert_free-Returned :
    (s n : ℕ) (bs : List Block)
    → 0 < n
    → IsSeparated 0 bs
    → IsDisjoint ((s, n) ∷ bs)
    → Returned s n bs (insert_free s n bs)
insert_free-Returned s n bs p h d =
    let given = bs ++ (s, n) ∷ [] in
    let count : (x : ℕ) → covers (sort_blocks given) x ≡ hit s n x + covers bs x =
      λ x. omega (arith, covers-sort given x, covers-append bs ((s, n) ∷ []) x) in
    let positive = AllPositive-append bs ((s, n) ∷ []) (IsSeparated-AllPositive 0 bs h) (p, tt) in
    let m =
      merge-Merged (sort_blocks given) (sort-IsSorted given) (sort-AllPositive given positive)
        (λ x. omega (arith, count x, d x)) in
    rw (insert_free-merge s n bs p) (record {
      separated = m.separated;
      same = λ x. m.same x ∙ count x;
      total =
          unfold total_bytes in
          omega (arith, m.total, total_bytes-sort given, total_bytes-append bs ((s, n) ∷ []));
    })
