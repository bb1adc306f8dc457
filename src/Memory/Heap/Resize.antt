-- ===== src/Memory/Heap/Resize.antt =====
-- Heap._shrink and Heap._grow_in_place: an allocation that changes its size where it stands.
use cwhost.Base.{
  leb, false, ℕ, suc, ◌+◌, ◌-◌, ◌≤◌, ◌<◌, ◌≡◌, ◌≢◌, refl, Option, none, some, List, [], ◌∷◌, arith,
  Bool-cases, inl, inr, ltb, ◌==◌,
}
use mathlib.Core.Option
use cwhost.Base.Dict.{lookup, insert, lookup-insert}
use cwhost.Memory.Heap.{
  Block, Heap, shrink, insert_free, grow_ranges, grow_in_place, keep_front, total_bytes,
}
use cwhost.Memory.Heap.Blocks.{
  hit, covers, IsSeparated, IsSeparated-mono, IsDisjoint, Returned, insert_free-Returned,
}
use cwhost.Memory.Heap.Free.{allocated-IsDisjoint}
use cwhost.Memory.Heap.Invariant.{IsValid, covers-update, insert-AllPositive, total-update}

module _ (a old amount : ℕ) (h : Heap) (v : IsValid h) (e : lookup a h.allocations ≡ some old) where
  tail-IsDisjoint : amount < old → IsDisjoint ((a + amount, old - amount) ∷ h.free_ranges)
  tail-IsDisjoint l x = ground (arith, allocated-IsDisjoint a old h v e x)

  -- the allocation at its new size, over a free list that holds the rest of the old one
  resized-IsValid :
      (cs : List Block)
      → 0 < amount
      → IsSeparated 0 cs
      → ((x : ℕ) → hit a amount x + covers cs x ≡ hit a old x + covers h.free_ranges x)
      → amount + total_bytes cs ≡ old + total_bytes h.free_ranges
      → IsValid (record h { free_ranges = cs; allocations = insert a amount h.allocations })
  resized-IsValid cs p s same total = record {
    separated = s;
    positive = insert-AllPositive a amount h.allocations p v.positive;
    partition =
        λ x. omega (arith, same x, covers-update a old amount x h.allocations e, v.partition x);
    bounded = v.bounded;
    total = omega (arith, total, total-update a old amount h.allocations e, v.total);
  }

  shrink_Returned :
      amount < old
      → Returned
          (a + amount)
          (old - amount)
          h.free_ranges
          (insert_free (a + amount) (old - amount) h.free_ranges)
  shrink_Returned l =
      insert_free-Returned (a + amount) (old - amount) h.free_ranges (omega arith) v.separated
        (tail-IsDisjoint l)

  -- Shrinking an allocation to at least one byte keeps the heap valid.
  pub shrink-IsValid : 0 < amount → amount ≤ old → IsValid (shrink a old amount h)
  unfolding shrink
  shrink-IsValid p l = elim (Bool-cases (ltb amount old)) [
    | inl less ↦
        let r = shrink_Returned (ground arith) in
        rw less (
          resized-IsValid (insert_free (a + amount) (old - amount) h.free_ranges) p r.separated
            (λ x. ground (arith, r.same x)) (omega (arith, r.total)))
    | inr same ↦
        let e : amount ≡ old = ground arith in
        rw same (resized-IsValid h.free_ranges p v.separated (λ x. rw e) (rw e))
  ]

-- What growing takes from the free list, or nothing.
abbrev pub Grown : ℕ → ℕ → ℕ → List Block → Option (List Block) → Type 0
Grown lo end extra bs none = Unit {0}
Grown lo end extra bs (some cs) =
    IsSeparated lo cs
    × ((x : ℕ) → hit end extra x + covers cs x ≡ covers bs x)
    × (extra + total_bytes cs ≡ total_bytes bs)

keep_front-Grown :
    (lo end extra s n : ℕ) (bs : List Block) (r : Option (List Block))
    → lo ≤ s
    → 0 < n
    → Grown (suc (s + n)) end extra bs r
    → Grown lo end extra ((s, n) ∷ bs) (keep_front (s, n) r)
unfolding total_bytes
keep_front-Grown lo end extra s n bs none l p g = tt
keep_front-Grown lo end extra s n bs (some cs) l p g =
    ((l, p, g.0), (λ x. omega (arith, g.1 x)), omega (arith, g.2))

grow_ranges-Grown :
    (lo end extra : ℕ) (bs : List Block)
    → IsSeparated lo bs
    → Grown lo end extra bs (grow_ranges end extra bs)
unfolding grow_ranges total_bytes
grow_ranges-Grown lo end extra [] s = tt
grow_ranges-Grown lo end extra ((t, n) ∷ bs) s = elim (Bool-cases (t == end)) [
  | inr other ↦ rw other (
      keep_front-Grown lo end extra t n bs (grow_ranges end extra bs) s.0 s.1
        (grow_ranges-Grown (suc (t + n)) end extra bs s.2))
  | inl here ↦ elim (Bool-cases (ltb n extra)) [
    | inl small ↦ rw here (rw small tt)
    | inr enough ↦ rw here (
        rw enough (elim (Bool-cases (n == extra)) [
          | inl all ↦ rw all (
            IsSeparated-mono (suc (t + n)) lo bs (omega arith) s.2,
            (λ x. ground arith),
            ground arith,
          )
          | inr some_left ↦ rw some_left (
            (
              omega arith,
              ground arith,
              IsSeparated-mono (suc (t + n)) (suc (t + extra + (n - extra))) bs (ground arith) s.2,
            ),
            (λ x. ground arith),
            ground arith,
          )
        ]))
  ]
]

-- A block that grows in place keeps the heap valid, and only gains addresses that were free.
abbrev pub GrownHeap : ℕ → ℕ → ℕ → Heap → Option Heap → Type 0
GrownHeap a old amount h none = Unit {0}
GrownHeap a old amount h (some h') =
    IsValid h'
    × (lookup a h'.allocations ≡ some amount)
    × ((b : ℕ) → b ≢ a → lookup b h'.allocations ≡ lookup b h.allocations)
    × (h'.base ≡ h.base)
    × (h'.size ≡ h.size)
    × (h'.allocations ≡ insert a amount h.allocations)

Grown-IsValid :
    (a old amount : ℕ) (h : Heap) (r : Option (List Block))
    → IsValid h
    → lookup a h.allocations ≡ some old
    → old < amount
    → Grown 0 (a + old) (amount - old) h.free_ranges r
    → GrownHeap a old amount h (
        Option.map
          (λ ranges. record h { free_ranges = ranges; allocations = insert a amount h.allocations })
          r)
Grown-IsValid a old amount h none v e l g = tt
Grown-IsValid a old amount h (some cs) v e l g = (
  resized-IsValid a old amount h v e cs (omega arith) g.0 (λ x. ground (arith, g.1 x))
      (omega (arith, g.2)),
  ground (arith, lookup-insert a a amount h.allocations),
  (λ b ne. ground (arith, lookup-insert a b amount h.allocations)),
  refl,
  refl,
  refl,
)

pub grow_in_place_lem :
    (a old amount : ℕ) (h : Heap)
    → IsValid h
    → lookup a h.allocations ≡ some old
    → old < amount
    → GrownHeap a old amount h (grow_in_place a old amount h)
unfolding grow_in_place
grow_in_place_lem a old amount h v e l =
    let grows : leb amount old ≡ false = ground arith in
    rw grows (
      Grown-IsValid a old amount h (grow_ranges (a + old) (amount - old) h.free_ranges) v e l
        (grow_ranges-Grown 0 (a + old) (amount - old) h.free_ranges v.separated))

-- A shrunk block has its new size; neither the heap nor another allocation moves.
pub shrink_rest :
    (a old amount : ℕ) (h : Heap)
    → (lookup a (shrink a old amount h).allocations ≡ some amount)
      × ((b : ℕ) → b ≢ a → lookup b (shrink a old amount h).allocations ≡ lookup b h.allocations)
      × ((shrink a old amount h).base ≡ h.base)
      × ((shrink a old amount h).size ≡ h.size)
      × ((shrink a old amount h).allocations ≡ insert a amount h.allocations)
unfolding shrink
shrink_rest a old amount h = (
  ground (arith, lookup-insert a a amount h.allocations),
  (λ b ne. ground (arith, lookup-insert a b amount h.allocations)),
  refl,
  refl,
  refl,
)
