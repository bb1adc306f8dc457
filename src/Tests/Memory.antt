-- ===== src/Tests/Memory.antt =====
-- memory.py: a heap of 4096 bytes at 0x1000, over an emulator that maps just those addresses.
use cwhost.Base.{
  ℕ, zero, suc, ◌+◌, ◌≡◌, refl, Bool, true, ◌&&◌, ◌||◌, none, some, [], ◌∷◌, length, ltb, leb, ◌==◌,
  ◌%◌, if◌then◌else◌, arith,
}
use cwhost.Base.Int.{pos}
use cwhost.Base.Result.{ok, err}
use cwhost.Base.Dict.{lookup}
use cwhost.Guest.{Emulator, bytes_from, patched, AllMapped}
use cwhost.Guest.Memory.{read, write}
use cwhost.Memory.{exhausted}
use cwhost.Memory.Heap.{Heap, heap_new, alloc, free, grow_in_place}
use cwhost.Memory.Heap.Invariant.{IsValid, heap_new-IsValid}
use cwhost.Memory.Heap.Alloc.{Allocates, alloc-IsValid, alloc-Allocates}
use cwhost.Memory.Heap.Free.{Frees, free-IsValid, free-Frees}
use cwhost.Memory.Realloc.{Machine, realloc}
use cwhost.Memory.Realloc.Laws.{IsReady, Resizes, realloc-Resizes}
use cwhost.Memory.Handles.{Handle, Manager, new, dispose, resize}
use cwhost.Memory.Handles.New.{MakesHandle, new-MakesHandle}
use cwhost.Memory.Handles.Dispose.{Disposes, dispose-Disposes}
use cwhost.Memory.Handles.Resize.{Owns, ResizesHandle, resize-ResizesHandle}

abbrev pub mapped_at : ℕ → Bool
mapped_at x = leb 4096 x && ltb x 8192

abbrev pub in_range : ℕ → ℕ → Bool
in_range a n = n == 0 || (leb 4096 a && leb (a + n) 8192)

pub in_range_lem : (a n : ℕ) → AllMapped mapped_at a n → in_range a n ≡ true
in_range_lem a zero h = refl
in_range_lem a (suc n) h =
    ground (arith, h a (omega arith) (omega arith), h (a + n) (omega arith) (omega arith))

abbrev pub ram : Emulator
ram = record {
  State = ℕ → ℕ;
  mapped = λ m. mapped_at;
  byte = λ m. m;
  mem_read = λ m a n. if in_range a n then some (bytes_from m a n) else none;
  mem_write = λ m a bs. if in_range a (length bs) then some (patched a bs m) else none;
  read_mapped = λ m a n h. rw (in_range_lem a n h) refl;
  write_mapped =
      λ m a bs h. (patched a bs m, rw (in_range_lem a (length bs) h) refl, λ x. refl, λ x. refl);
}

abbrev pub empty_heap : Heap
empty_heap = record { base = 4096; size = 4096; free_ranges = (4096, 4096) ∷ []; allocations = [] }

-- a block of 20 bytes, then one of 4
abbrev one_block : Heap
one_block = (alloc (pos 20) (pos 16) empty_heap).1

abbrev two_blocks : Heap
two_blocks = (alloc (pos 4) (pos 4) one_block).1

first_fit : (alloc (pos 8) (pos 16) two_blocks).0 ≡ ok 4128
unfolding alloc
first_fit = refl

merged_back : (free 4116 two_blocks).1.free_ranges ≡ (4116, 4076) ∷ []
unfolding alloc free
merged_back = refl

too_large : (alloc (pos 4097) (pos 1) empty_heap).0 ≡ err exhausted
unfolding alloc
too_large = refl

made : heap_new (pos 4096) (pos 4096) ≡ ok empty_heap
unfolding heap_new
made = refl

pub empty_heap-IsValid : IsValid empty_heap
empty_heap-IsValid = heap_new-IsValid (pos 4096) (pos 4096) made

one_block-IsValid : IsValid one_block
one_block-IsValid = alloc-IsValid (pos 20) (pos 16) empty_heap empty_heap-IsValid

two_blocks-IsValid : IsValid two_blocks
two_blocks-IsValid = alloc-IsValid (pos 4) (pos 4) one_block one_block-IsValid

alloc-IsValid_example : IsValid (alloc (pos 20) (pos 16) empty_heap).1
alloc-IsValid_example = alloc-IsValid (pos 20) (pos 16) empty_heap empty_heap-IsValid

alloc-Allocates_example : Allocates 16 8 two_blocks (alloc (pos 8) (pos 16) two_blocks)
alloc-Allocates_example = alloc-Allocates 8 16 two_blocks (omega arith) two_blocks-IsValid

free-IsValid_example : IsValid (free 4096 two_blocks).1
free-IsValid_example = free-IsValid 4096 two_blocks two_blocks-IsValid

found_4096 : lookup 4096 two_blocks.allocations ≡ some 20
unfolding alloc
found_4096 = refl

found_4116 : lookup 4116 two_blocks.allocations ≡ some 4
unfolding alloc
found_4116 = refl

free-Frees_example :
    Frees 4096 two_blocks (lookup 4096 two_blocks.allocations) (free 4096 two_blocks)
free-Frees_example = free-Frees 4096 two_blocks two_blocks-IsValid

abbrev machine : Machine ram
machine = record { heap = two_blocks; memory = λ x. x % 256 }

range_kept : (two_blocks.base ≡ 4096) × (two_blocks.size ≡ 4096)
unfolding alloc
range_kept = (refl, refl)

machine-IsReady : IsReady ram machine
machine-IsReady = record {
  valid = two_blocks-IsValid;
  covered = λ x l u. ground (arith, range_kept);
}

realloc-Resizes_example :
    Resizes ram 4096 20 40 true machine (realloc ram 4096 (pos 40) true machine)
realloc-Resizes_example = realloc-Resizes ram 4096 20 40 machine machine-IsReady found_4096 true

-- The block behind the handle cannot grow in place: it moves to 4128, with its bytes.
moved : (realloc ram 4096 (pos 40) true machine).0 ≡ ok 4128
unfolding alloc realloc grow_in_place read write free
moved = refl

abbrev handle : Handle
handle = record { master = 4116; block = 4096; requested_size = 20; state_bits = 0 }

abbrev manager : Manager ram
manager = record { machine = machine; handles = (4116, handle) ∷ [] }

manager-Owns : Owns ram manager 4116 handle
manager-Owns = record {
  ready = machine-IsReady;
  known = refl;
  block_allocated = found_4096;
  master_allocated = found_4116;
  apart = λ e. ground (arith, e);
}

resize-ResizesHandle_example :
    ResizesHandle ram manager 4116 40 handle (resize ram 4116 (pos 40) manager)
resize-ResizesHandle_example = resize-ResizesHandle ram manager 4116 40 handle manager-Owns

new-MakesHandle_example : MakesHandle ram manager 100 true (new ram (pos 100) true manager)
new-MakesHandle_example = new-MakesHandle ram manager 100 machine-IsReady true

dispose-Disposes_example : Disposes ram manager 4116 handle (dispose ram 4116 manager)
dispose-Disposes_example = dispose-Disposes ram manager 4116 handle manager-Owns refl (refl, tt)
