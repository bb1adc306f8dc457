-- ===== src/Memory/Handles/Dispose.antt =====
-- memory.py, Handles.dispose: what it gives back, and what it leaves alone.
use cwhost.Base.{ℕ, ◌+◌, ◌≡◌, ◌≢◌, refl, sym, ◌∙◌, max, some, none, arith}
use cwhost.Base.Result.{Result, ok, err}
use cwhost.Base.Dict.{IsDict, lookup, lookup-erase_ne, lookup-erase_self}
use cwhost.Guest.{Emulator}
use cwhost.Memory.{MemoryError}
use cwhost.Memory.Heap.{free}
use cwhost.Memory.Heap.Blocks.{hit, covers}
use cwhost.Memory.Heap.Invariant.{IsValid}
use cwhost.Memory.Heap.Free.{free-IsValid, free_rest, free_ok, freed}
use cwhost.Memory.Realloc.Laws.{IsReady}
use cwhost.Memory.Handles.{Handle, Manager, dispose}
use cwhost.Memory.Handles.Resize.{Owns}

module _ (u : Emulator) where
  -- How `dispose` of the handle `h` at `master` ends: both of its blocks are free and nothing else
  -- is, the handle is gone, and neither the memory, another allocation nor another handle changes.
  pub record Disposed (m : Manager u) (master : ℕ) (h : Handle) (m' : Manager u) : Type 0 where
    pub ready : IsReady u m'.machine
    pub memory_kept : m'.machine.memory ≡ m.machine.memory
    pub gone : lookup master m'.handles ≡ none
    pub other_handles : (c : ℕ) → c ≢ master → lookup c m'.handles ≡ lookup c m.handles
    pub released :
        (x : ℕ)
        → covers m'.machine.heap.free_ranges x
          ≡ hit master 4 x
            + (hit h.block (max h.requested_size 1) x + covers m.machine.heap.free_ranges x)
    pub other_allocations :
        (c : ℕ)
        → c ≢ master
        → c ≢ h.block
        → lookup c m'.machine.heap.allocations ≡ lookup c m.machine.heap.allocations

  abbrev pub Disposes : Manager u → ℕ → Handle → Result MemoryError (Unit {0}) × Manager u → Type 0
  Disposes m master h (ok _, m') = Disposed m master h m'
  Disposes m master h (err e, m') = ⊥

  -- A handle that owns its blocks, and that the manager holds once, under its own master pointer, is
  -- disposed of without an error: its two blocks are free again and no other addresses, the handle
  -- is gone, and neither the memory, another allocation nor another handle changes.
  pub dispose-Disposes :
      (m : Manager u) (master : ℕ) (h : Handle)
      → Owns u m master h
      → h.master ≡ master
      → IsDict m.handles
      → Disposes m master h (dispose u master m)
  unfolding dispose
  dispose-Disposes m master h o at_master once =
      let heap = m.machine.heap in
      let n = max h.requested_size 1 in
      let h₁ = (free h.block heap).1 in
      let v₁ : IsValid h₁ = free-IsValid h.block heap o.ready.valid in
      let rest₁ = free_rest h.block heap in
      let left : lookup master h₁.allocations ≡ some 4 =
        rest₁.2 master o.apart ∙ o.master_allocated in
      let rest₂ = free_rest master h₁ in
      let f₁ = freed h.block n heap o.ready.valid o.block_allocated in
      let f₂ = freed master 4 h₁ v₁ left in
      rw (o.known, at_master, free_ok h.block n heap o.block_allocated)
        (rw (free_ok master 4 h₁ left) (record {
          ready = record {
            valid = free-IsValid master h₁ v₁;
            covered = λ x l r.
                o.ready.covered x (omega (arith, rest₁.0, rest₂.0))
                  (omega (arith, rest₁.0, rest₁.1, rest₂.0, rest₂.1));
          };
          memory_kept = refl;
          gone = lookup-erase_self master m.handles once;
          other_handles = λ c ne. lookup-erase_ne master c m.handles (λ q. ne (sym q));
          released = λ x. omega (arith, f₁.1 x, f₂.1 x);
          other_allocations = λ c ne ne'. rest₂.2 c ne ∙ rest₁.2 c ne';
        }))
