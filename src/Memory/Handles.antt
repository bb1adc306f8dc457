-- ===== src/Memory/Handles.antt =====
-- memory.py, class Handles: relocatable blocks behind master pointers in guest memory.
pub mod Resize
pub mod New
pub mod Dispose
use cwhost.Base.{
  ℕ, zero, suc, ◌+◌, ◌/◌, ◌%◌, max, Bool, true, false, not, Option, none, some, List, [], ◌∷◌,
  replicate, ltb, ◌==◌, if◌then◌else◌,
}
use cwhost.Base.Int.{ℤ, pos, negsuc}
use cwhost.Base.Result.{Result, ok, err}
use cwhost.Base.Action.{Action, pure, raise, lift, ◌>>=◌, ◌>>◌}
use cwhost.Base.Dict.{Dict, lookup, insert, erase}
use cwhost.Guest.{Emulator}
use cwhost.Guest.Memory.{write, w32, u32}
use cwhost.Memory.{
  MemoryError, handle_size, unknown_handle, handle_state, master_modified, unknown_block,
}
use cwhost.Memory.Heap.{alloc, free}
use cwhost.Memory.Realloc.{Machine, on_heap, fetch, set_memory, realloc}

-- _Handle
pub record Handle : Type 0 where
  pub master : ℕ
  pub block : ℕ
  pub requested_size : ℕ
  pub state_bits : ℕ

-- bit 7 of the state: the block may not move
abbrev pub is_locked : ℕ → Bool
is_locked bits = bits / 128 % 2 == 1

abbrev pub check_size : {S : Type 0} → ℤ → Action S MemoryError ℕ
check_size (pos n) s = (ok n, s)
check_size (negsuc _) s = (err handle_size, s)

module _ (u : Emulator) where
  pub record Manager : Type 0 where
    pub machine : Machine u
    pub handles : Dict Handle

  abbrev pub Method : Type 0 → Type 0
  Method A = Action Manager MemoryError A

  abbrev pub with_machine :
      {A : Type 0} → Dict Handle → Result MemoryError A × Machine u → Result MemoryError A × Manager
  with_machine d (r, s) = (r, record { machine = s; handles = d })

  -- a call of the heap or of the guest
  abbrev pub on_machine : {A : Type 0} → Action (Machine u) MemoryError A → Method A
  on_machine f m = with_machine m.handles (f m.machine)

  abbrev pub set_handle : ℕ → Handle → Method (Unit {0})
  set_handle master h m = (ok tt, record m { handles = insert master h m.handles })

  -- guest.w32 and guest.write
  abbrev pub store_u32 : ℕ → ℕ → Method (Unit {0})
  store_u32 address value = on_machine (λ s. set_memory u (w32 u s.memory address value) s)

  abbrev pub store_zeros : ℕ → ℕ → Method (Unit {0})
  store_zeros address n =
      on_machine (λ s. set_memory u (write u s.memory address (replicate n 0)) s)

  abbrev pub found : Option Handle → Method Handle
  found none = raise unknown_handle
  found (some h) = pure h

  -- Handles._get
  abbrev pub get : ℕ → Method Handle
  get master m = found (lookup master m.handles) m

  -- Handles.new
  unfoldable pub new : ℤ → Bool → Method ℕ
  new size clear = do
    n ← check_size size
    block ← on_machine (on_heap u (alloc (pos n) (pos 16)))
    master ← on_machine (on_heap u (alloc (pos 4) (pos 4)))
    set_handle master
        (record { master = master; block = block; requested_size = n; state_bits = 0 })
    store_u32 master block
    if clear then store_zeros block (max n 1) else pure tt
    pure master

  -- Handles.dispose
  unfoldable pub dispose : ℕ → Method (Unit {0})
  dispose master = do
    h ← get master
    λ m. (ok tt, record m { handles = erase master m.handles })
    on_machine (on_heap u (free h.block))
    on_machine (on_heap u (free h.master))

  -- Handles.size
  unfoldable pub size : ℕ → Method ℕ
  size master = get master >>= λ h. pure h.requested_size

  -- Handles.resize
  unfoldable pub resize : ℕ → ℤ → Method ℕ
  resize master size = do
    n ← check_size size
    h ← get master
    new_block ← on_machine (realloc u h.block (pos n) (not (is_locked h.state_bits)))
    set_handle master (record h { block = new_block; requested_size = n })
    store_u32 master new_block
    pure new_block

  -- Handles.lock, Handles.unlock, Handles.state and Handles.set_state
  unfoldable pub lock : ℕ → Method (Unit {0})
  lock master = do
    h ← get master
    set_handle master (record h {
      state_bits = if is_locked h.state_bits then h.state_bits else h.state_bits + 128;
    })

  unfoldable pub unlock : ℕ → Method (Unit {0})
  unlock master = do
    h ← get master
    set_handle master (record h { state_bits = h.state_bits % 128 })

  unfoldable pub state : ℕ → Method ℕ
  state master = get master >>= λ h. pure h.state_bits

  unfoldable pub set_state : ℕ → ℤ → Method (Unit {0})
  set_state master (negsuc _) = raise handle_state
  set_state master (pos n) =
      if ltb 0xFF n
      then raise handle_state
      else (get master >>= λ h. set_handle master (record h { state_bits = n }))

  -- Handles.block
  unfoldable pub block : ℕ → Method ℕ
  block master = do
    h ← get master
    pointer ← on_machine (λ s. fetch u (u32 u s.memory master) s)
    if pointer == h.block then pure pointer else raise master_modified

  abbrev pub size_of_block : ℕ → Dict Handle → Option ℕ
  size_of_block pointer [] = none
  size_of_block pointer ((_, h) ∷ d) =
      if h.block == pointer then some h.requested_size else size_of_block pointer d

  -- Handles.block_size
  unfoldable pub block_size : ℕ → Method ℕ
  block_size pointer m = elim (size_of_block pointer m.handles) [
    | none ↦ (err unknown_block, m)
    | some n ↦ (ok n, m)
  ]
