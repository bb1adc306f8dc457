-- ===== src/Memory/Realloc.antt =====
-- memory.py, Heap.realloc: resize in place, or move. A move copies guest memory, so the state is
-- the heap together with the emulator's memory.
pub mod Laws
use cwhost.Base.{
  ℕ, ◌%◌, max, min, Bool, true, false, Option, none, some, ltb, leb, ◌==◌, if◌then◌else◌, ◌≡◌,
}
use cwhost.Base.Int.{ℤ, pos, negsuc}
use cwhost.Base.Result.{Result, ok, err}
use cwhost.Base.Action.{Action, pure, raise, lift, ◌>>=◌, ◌>>◌}
use cwhost.Base.Dict.{lookup}
use cwhost.Guest.{Emulator}
use cwhost.Guest.Memory.{read, write}
use cwhost.Memory.{MemoryError, heap_address, locked_block, guest_fault, validate_size}
use cwhost.Memory.Heap.{Heap, alloc, free, shrink, grow_in_place}

module _ (u : Emulator) where
  open u use {State}

  pub record Machine : Type 0 where
    pub heap : Heap
    pub memory : State

  abbrev pub Run : Type 0 → Type 0
  Run A = Action Machine MemoryError A

  abbrev pub with_heap :
      {A : Type 0} → State → Result MemoryError A × Heap → Result MemoryError A × Machine
  with_heap m (r, h) = (r, record { heap = h; memory = m })

  -- a method of the heap
  abbrev pub on_heap : {A : Type 0} → Action Heap MemoryError A → Run A
  on_heap f s = with_heap s.memory (f s.heap)

  -- an access to guest memory, which may fault
  abbrev pub fetch : {A : Type 0} → Option A → Run A
  fetch none s = (err guest_fault, s)
  fetch (some a) s = (ok a, s)

  abbrev pub set_memory : Option State → Run (Unit {0})
  set_memory none s = (err guest_fault, s)
  set_memory (some m) s = (ok tt, record s { memory = m })

  -- guest.write(target, guest.read(source, count))
  unfoldable pub copy : ℕ → ℕ → ℕ → Run (Unit {0})
  copy target source count s =
      (fetch (read u s.memory source count) >>= λ bs.
      λ t. set_memory (write u t.memory target bs) t)
        s

  -- the rest of `realloc`, where the block has to move
  unfoldable pub move : ℕ → ℕ → ℕ → Run ℕ
  unfolding copy
  move address old n = do
    target ← on_heap (alloc (pos n) (pos 16))
    if min old (max n 1) == 0 then pure tt else copy target address (min old (max n 1))
    on_heap (free address)
    pure target

  abbrev pub grow_or_move : Bool → ℕ → ℕ → ℕ → Option Heap → Run ℕ
  grow_or_move allow_move address old n (some h) s = (ok address, record s { heap = h })
  grow_or_move true address old n none s = move address old n s
  grow_or_move false address old n none s = (err locked_block, s)

  abbrev pub resize_block : Bool → ℕ → ℕ → Option ℕ → Run ℕ
  resize_block allow_move address n none s = (err heap_address, s)
  resize_block allow_move address n (some old) s =
      if leb (max n 1) old
      then (ok address, record s { heap = shrink address old (max n 1) s.heap })
      else grow_or_move allow_move address old n (grow_in_place address old (max n 1) s.heap) s

  -- Heap.realloc
  unfoldable pub realloc : ℕ → ℤ → Bool → Run ℕ
  unfolding move validate_size
  realloc address size allow_move = do
    n ← lift (validate_size size)
    λ s. resize_block allow_move address n (lookup address s.heap.allocations) s
