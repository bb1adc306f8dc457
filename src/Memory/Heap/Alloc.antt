-- ===== src/Memory/Heap/Alloc.antt =====
-- Heap.alloc: the books after an allocation.
use cwhost.Base.{
  ℕ, zero, suc, ◌+◌, ◌%◌, ◌≤◌, ◌<◌, max, ◌≡◌, refl, Option, none, some, List, arith, ◌==◌,
  if◌then◌else◌,
}
use cwhost.Base.Dict.{lookup, insert, lookup-insert}
use cwhost.Base.Int.{ℤ, pos, negsuc}
use cwhost.Base.Result.{Result, ok, err}
use cwhost.Memory.{MemoryError, exhausted}
use cwhost.Memory.Heap.{Block, Heap, fit, record_block, alloc}
use cwhost.Memory.Heap.Blocks.{hit, covers}
use cwhost.Memory.Heap.Invariant.{
  IsValid, lookup-none, covers-insert, insert-AllPositive, total-insert,
}
use cwhost.Memory.Heap.Fit.{Fitted, IsFree, FitResult, fit_lem}

-- The state after a block was taken.
module _ (h : Heap) (v : IsValid h) (align amount a : ℕ) (cs : List Block) (pn : 0 < amount)
    (f : Fitted 0 align amount h.free_ranges a cs) where
  taken : Heap
  taken = record h { free_ranges = cs; allocations = insert a amount h.allocations }

  taken_run : IsFree h.free_ranges a amount
  taken_run x l u = ground (arith, f.same x, v.partition x)

  taken_new : lookup a h.allocations ≡ none
  taken_new = lookup-none a h.allocations v.positive (ground (arith, f.same a, v.partition a))

  taken-IsValid : IsValid taken
  unfolding taken
  taken-IsValid = record {
    separated = f.separated;
    positive = insert-AllPositive a amount h.allocations pn v.positive;
    partition = λ x.
        omega (arith, f.same x, v.partition x, covers-insert a amount x h.allocations taken_new);
    bounded = v.bounded;
    total = omega (arith, f.total, v.total, total-insert a amount h.allocations taken_new);
  }

record_block-IsValid :
    (align amount : ℕ) (r : Option (ℕ × List Block)) (h : Heap)
    → 0 < amount
    → IsValid h
    → FitResult 0 align amount h.free_ranges r
    → IsValid (record_block amount r h).1
unfolding taken
record_block-IsValid align amount none h p v f = v
record_block-IsValid align amount (some (a, cs)) h p v f = taken-IsValid h v align amount a cs p f.0

-- the search on a valid heap
search_lem :
    (n align : ℕ) (h : Heap)
    → 0 < align
    → IsValid h
    → FitResult 0 align (max n 1) h.free_ranges (fit align (max n 1) h.free_ranges)
search_lem n align h p v = fit_lem 0 align (max n 1) h.free_ranges p (omega arith) v.separated

-- `alloc` keeps a valid heap valid, whatever its size and alignment, whether it succeeds or raises.
pub alloc-IsValid : (size align : ℤ) (h : Heap) → IsValid h → IsValid (alloc size align h).1
unfolding alloc
alloc-IsValid (negsuc n) align h v = v
alloc-IsValid (pos n) (negsuc a) h v = v
alloc-IsValid (pos n) (pos zero) h v = v
alloc-IsValid (pos n) (pos (suc a)) h v =
    record_block-IsValid (suc a) (max n 1) (fit (suc a) (max n 1) h.free_ranges) h (omega arith) v
      (search_lem n (suc a) h (omega arith) v)

-- How an allocation of `amount` bytes may end. Where it succeeds, at `a`: `a` is aligned, all the
-- block was free, and no lower aligned address has such a run; the block is recorded and every
-- other allocation stands as before; just the block left the free list. Where it raises: nothing
-- has changed, and no aligned free run of that length exists anywhere.
abbrev pub Allocates : ℕ → ℕ → Heap → Result MemoryError ℕ × Heap → Type 0
Allocates align amount h (ok a, h') =
    (a % align ≡ 0)
    × IsFree h.free_ranges a amount
    × ((m : ℕ) → m % align ≡ 0 → IsFree h.free_ranges m amount → a ≤ m)
    × ((b : ℕ) → lookup b h'.allocations ≡ (if a == b then some amount else lookup b h.allocations))
    × ((x : ℕ) → hit a amount x + covers h'.free_ranges x ≡ covers h.free_ranges x)
Allocates align amount h (err e, h') =
    (e ≡ exhausted) × (h' ≡ h) × ((m : ℕ) → m % align ≡ 0 → ¬ IsFree h.free_ranges m amount)

record_block-Allocates :
    (align amount : ℕ) (r : Option (ℕ × List Block)) (h : Heap)
    → 0 < amount
    → IsValid h
    → FitResult 0 align amount h.free_ranges r
    → Allocates align amount h (record_block amount r h)
record_block-Allocates align amount none h p v f = (refl, refl, f)
record_block-Allocates align amount (some (a, cs)) h p v f = (
  f.0.at_boundary,
  taken_run h v align amount a cs p f.0,
  f.1,
  λ b. lookup-insert a b amount h.allocations,
  f.0.same,
)

-- On a valid heap `alloc` with a size of zero or more and a positive alignment takes, for at least
-- one byte, the lowest aligned free run that is long enough and nothing else, and raises only where
-- there is none, with nothing changed.
pub alloc-Allocates :
    (n align : ℕ) (h : Heap)
    → 0 < align
    → IsValid h
    → Allocates align (max n 1) h (alloc (pos n) (pos align) h)
unfolding alloc
alloc-Allocates n zero h p v = absurd (omega arith)
alloc-Allocates n (suc a) h p v =
    record_block-Allocates (suc a) (max n 1) (fit (suc a) (max n 1) h.free_ranges) h (omega arith) v
      (search_lem n (suc a) h p v)

record_block_range :
    (amount : ℕ) (r : Option (ℕ × List Block)) (h : Heap)
    → ((record_block amount r h).1.base ≡ h.base) × ((record_block amount r h).1.size ≡ h.size)
record_block_range amount none h = (refl, refl)
record_block_range amount (some _) h = (refl, refl)

pub alloc_range :
    (size align : ℤ) (h : Heap)
    → ((alloc size align h).1.base ≡ h.base) × ((alloc size align h).1.size ≡ h.size)
unfolding alloc
alloc_range (negsuc n) align h = (refl, refl)
alloc_range (pos n) (negsuc a) h = (refl, refl)
alloc_range (pos n) (pos zero) h = (refl, refl)
alloc_range (pos n) (pos (suc a)) h =
    record_block_range (max n 1) (fit (suc a) (max n 1) h.free_ranges) h
