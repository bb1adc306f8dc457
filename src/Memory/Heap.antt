-- ===== src/Memory/Heap.antt =====
-- memory.py, class Heap: a first-fit heap that coalesces its free ranges. The methods below only
-- keep the books; `realloc`, which copies guest memory, is in Memory/Realloc.antt.
pub mod Blocks
pub mod Invariant
pub mod Fit
pub mod Alloc
pub mod Free
pub mod Resize
use cwhost.Base.{
  ℕ, zero, suc, ◌+◌, ◌-◌, ◌*◌, ◌/◌, Bool, true, false, Option, none, some, List, [], ◌∷◌, ◌++◌, max,
  ltb, leb, ◌==◌, ◌&&◌, if◌then◌else◌,
}
use mathlib.Core.Option
use cwhost.Base.Int.{ℤ, pos, negsuc}
use cwhost.Base.Result.{Result, ok, err}
use cwhost.Base.Action.{Action, lift, pure, raise, gets, modify, ◌>>=◌, ◌>>◌}
use cwhost.Base.Dict.{Dict, lookup, insert, erase}
use cwhost.Memory.{
  MemoryError, heap_size, heap_range, exhausted, heap_address, validate_size, validate_align,
}

-- a range of addresses: its start and its length
abbrev pub Block : Type 0
Block = ℕ × ℕ

-- `free_ranges` is `_free`; `allocations` maps the start of each allocation to its size.
pub record Heap : Type 0 where
  pub base : ℕ
  pub size : ℕ
  pub free_ranges : List Block
  pub allocations : Dict ℕ

-- Heap.__init__, less the call of `guest.map`
unfoldable pub heap_new : ℤ → ℤ → Result MemoryError Heap
heap_new base (negsuc _) = err heap_size
heap_new base (pos zero) = err heap_size
heap_new (negsuc _) (pos (suc n)) = err heap_range
heap_new (pos b) (pos (suc n)) =
    if ltb 0x1_0000_0000 (b + suc n)
    then err heap_range
    else ok (record { base = b; size = suc n; free_ranges = (b, suc n) ∷ []; allocations = [] })

-- Heap._aligned
unfoldable pub aligned : ℕ → ℕ → ℕ
aligned value alignment = (value + alignment - 1) / alignment * alignment

-- a range that is kept only if it is not empty
abbrev pub piece : ℕ → ℕ → List Block
piece start n = if n == 0 then [] else (start, n) ∷ []

abbrev pub keep_range : Block → Option (ℕ × List Block) → Option (ℕ × List Block)
keep_range b none = none
keep_range b (some (address, ranges)) = some (address, b ∷ ranges)

-- A range from which `amount` bytes at `address` are taken: the prefix and the suffix stay.
abbrev pub carve : ℕ → ℕ → ℕ → ℕ → List Block → List Block
carve start available address amount rest =
    piece start (address - start)
    ++ (piece (address + amount) (available - (address - start) - amount) ++ rest)

-- The loop of `alloc`: the address of the first range with room, and the ranges left.
unfoldable pub fit : ℕ → ℕ → List Block → Option (ℕ × List Block)
unfolding aligned
fit align amount [] = none
fit align amount ((start, available) ∷ rest) =
    let later = fit align amount rest in
    let address = aligned start align in
    let prefix = address - start in
    if ltb available (prefix + amount)
    then keep_range (start, available) later
    else some (address, carve start available address amount rest)

-- what `alloc` does with the outcome of its search
abbrev pub record_block : ℕ → Option (ℕ × List Block) → Action Heap MemoryError ℕ
record_block amount none h = (err exhausted, h)
record_block amount (some (address, ranges)) h = (
  ok address,
  record h { free_ranges = ranges; allocations = insert address amount h.allocations },
)

-- the body of `alloc` behind its two checks
unfoldable pub place : ℕ → ℕ → Action Heap MemoryError ℕ
place n align h = record_block (max n 1) (fit align (max n 1) h.free_ranges) h

-- Heap.alloc
unfoldable pub alloc : ℤ → ℤ → Action Heap MemoryError ℕ
unfolding place fit validate_size validate_align
alloc n align = do
  size ← lift (validate_size n)
  alignment ← lift (validate_align align)
  place size alignment

-- the order of Python's tuples
abbrev pub block_le : Block → Block → Bool
block_le (s, n) (t, m) = if s == t then leb n m else leb s t

-- `list.sort` on ranges, by insertion
abbrev pub put_sorted : Block → List Block → List Block
put_sorted b [] = b ∷ []
put_sorted b (c ∷ cs) = if block_le b c then b ∷ c ∷ cs else c ∷ put_sorted b cs

abbrev pub sort_blocks : List Block → List Block
sort_blocks [] = []
sort_blocks (b ∷ bs) = put_sorted b (sort_blocks bs)

-- The merging loop of `_insert_free`; its first argument is `merged[-1]`.
unfoldable pub merge_from : Block → List Block → List Block
merge_from last [] = last ∷ []
merge_from (previous, amount) ((current, n) ∷ rest) =
    let joined = merge_from (previous, max (previous + amount) (current + n) - previous) rest in
    let kept = merge_from (current, n) rest in
    if leb current (previous + amount) then joined else (previous, amount) ∷ kept

abbrev pub merge_blocks : List Block → List Block
merge_blocks [] = []
merge_blocks (b ∷ bs) = merge_from b bs

-- Heap._insert_free
unfoldable pub insert_free : ℕ → ℕ → List Block → List Block
unfolding merge_from
insert_free start amount ranges =
    if amount == 0 then ranges else merge_blocks (sort_blocks (ranges ++ (start, amount) ∷ []))

-- what `free` does with the entry that it popped
abbrev pub give_back : ℕ → Option ℕ → Action Heap MemoryError (Unit {0})
give_back address none h = (err heap_address, h)
give_back address (some n) h = (
  ok tt,
  record h {
    free_ranges = insert_free address n h.free_ranges;
    allocations = erase address h.allocations;
  },
)

-- Heap.free
unfoldable pub free : ℕ → Action Heap MemoryError (Unit {0})
unfolding insert_free
free address h = give_back address (lookup address h.allocations) h

-- Heap._shrink: of an allocation of `old` bytes the first `amount` stay.
unfoldable pub shrink : ℕ → ℕ → ℕ → Heap → Heap
unfolding insert_free
shrink address old amount h = record h {
  free_ranges =
      if ltb amount old
      then insert_free (address + amount) (old - amount) h.free_ranges
      else h.free_ranges;
  allocations = insert address amount h.allocations;
}

abbrev pub keep_front : Block → Option (List Block) → Option (List Block)
keep_front b none = none
keep_front b (some ranges) = some (b ∷ ranges)

-- The free list of `_grow_in_place`: the range that starts at `end` gives up `extra` bytes.
unfoldable pub grow_ranges : ℕ → ℕ → List Block → Option (List Block)
grow_ranges end extra [] = none
grow_ranges end extra ((start, available) ∷ rest) =
    let later = grow_ranges end extra rest in
    if start == end
    then if ltb available extra
      then none
      else some (if available == extra then rest else (start + extra, available - extra) ∷ rest)
    else keep_front (start, available) later

-- Heap._grow_in_place, `none` where it returns False
unfoldable pub grow_in_place : ℕ → ℕ → ℕ → Heap → Option Heap
unfolding grow_ranges
grow_in_place address old amount h =
    if leb amount old
    then some h
    else Option.map
        (λ ranges. record h {
          free_ranges = ranges;
          allocations = insert address amount h.allocations;
        })
        (grow_ranges (address + old) (amount - old) h.free_ranges)

-- Heap.free_bytes
unfoldable pub total_bytes : List Block → ℕ
total_bytes [] = 0
total_bytes ((_, n) ∷ bs) = n + total_bytes bs

-- Heap.largest_free_block
unfoldable pub largest : List Block → ℕ
largest [] = 0
largest ((_, n) ∷ bs) = max n (largest bs)

-- Heap.allocated_size
unfoldable pub allocated_size : ℕ → Action Heap MemoryError ℕ
allocated_size address h = elim (lookup address h.allocations) [
  | none ↦ (err heap_address, h)
  | some n ↦ (ok n, h)
]
