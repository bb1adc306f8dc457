-- ===== src/Memory.antt =====
-- memory.py: the Memory Manager primitives. What its two classes share: the exceptions, and the
-- checks on sizes and alignments.
pub mod Heap
pub mod Realloc
pub mod Handles
use cwhost.Base.{ℕ, zero, suc}
use cwhost.Base.Int.{ℤ, pos, negsuc}
use cwhost.Base.Result.{Result, ok, err}

-- One constructor for each `raise HostError` of memory.py, and the emulator's own fault.
pub data MemoryError : Type 0 where
  heap_size heap_range : MemoryError
  allocation_size allocation_alignment : MemoryError
  exhausted heap_address locked_block : MemoryError
  handle_size unknown_handle handle_state master_modified unknown_block : MemoryError
  guest_fault : MemoryError

-- Heap._validate_size
unfoldable pub validate_size : ℤ → Result MemoryError ℕ
validate_size (pos n) = ok n
validate_size (negsuc _) = err allocation_size

-- Heap._validate_align
unfoldable pub validate_align : ℤ → Result MemoryError ℕ
validate_align (pos zero) = err allocation_alignment
validate_align (pos (suc n)) = ok (suc n)
validate_align (negsuc _) = err allocation_alignment
