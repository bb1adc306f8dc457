-- ===== src/Memory/Handles/Resize.antt =====
-- Handles.resize: the handle's content survives, and a locked block stays where it is.
use cwhost.Base.{
  ℕ, ◌+◌, ◌%◌, ◌≤◌, ◌<◌, ◌≡◌, ◌≢◌, refl, max, not, ◌⊎◌, Bool, true, false, some, arith, Bool-cases,
  inl, inr, ltb, ◌∙◌, sym, ap,
}
use cwhost.Base.Int.{pos}
use cwhost.Base.Result.{Result, ok, err}
use cwhost.Base.Dict.{lookup, lookup-insert}
use cwhost.Base.Bytes.{be32}
use cwhost.Guest.{Emulator, AllMapped}
use cwhost.Guest.Memory.{u32, u32_lem, w32_lem, patched_outside}
use cwhost.Memory.{MemoryError, exhausted, locked_block}
use cwhost.Memory.Heap.Blocks.{hit, covers}
use cwhost.Memory.Heap.Fit.{IsFree}
use cwhost.Memory.Realloc.{Machine, realloc}
use cwhost.Memory.Realloc.Laws.{
  IsReady, Resizes, realloc-Resizes, allocated_within, allocated_apart,
}
use cwhost.Memory.Handles.{Handle, Manager, is_locked, resize}

double_negation : {a b : Bool} → not a ≡ b → a ≡ not b
double_negation {a = true} q = ap not q
double_negation {a = false} q = ap not q

module _ (u : Emulator) where
  open u use {State, byte, mapped}

  -- The handle at `master` is `h`, and both of its blocks are allocated, apart from one another.
  pub record Owns (m : Manager u) (master : ℕ) (h : Handle) : Type 0 where
    pub ready : IsReady u m.machine
    pub known : lookup master m.handles ≡ some h
    pub block_allocated : lookup h.block m.machine.heap.allocations ≡ some (max h.requested_size 1)
    pub master_allocated : lookup master m.machine.heap.allocations ≡ some 4
    pub apart : master ≢ h.block

  -- How `resize` to `n` bytes may end. Where it succeeds, at `b`: the handle owns its blocks, with
  -- the new size and the old state; the master pointer shows `b`; the bytes that both sizes hold
  -- are at `b`; a locked block has not moved; every other allocation and its bytes and every other
  -- handle are as before; and the old block's addresses, less those of the new one, are free again
  -- and no others. Where it raises, nothing has changed, the block was to grow, and either the handle
  -- is locked, or no free run at a multiple of 16 is long enough.
  pub record HandleResized (m : Manager u) (master n : ℕ) (h : Handle) (b : ℕ) (m' : Manager u)
      : Type 0 where
    pub owned : Owns m' master (record h { block = b; requested_size = n })
    pub pointer : u32 u m'.machine.memory master ≡ some b
    pub content :
        (i : ℕ)
        → i < max h.requested_size 1
        → i < max n 1
        → byte m'.machine.memory (b + i) ≡ byte m.machine.memory (h.block + i)
    pub locked_stays : is_locked h.state_bits ≡ true → b ≡ h.block
    pub other_handles : (c : ℕ) → c ≢ master → lookup c m'.handles ≡ lookup c m.handles
    pub others :
        (c k : ℕ)
        → c ≢ h.block
        → lookup c m.machine.heap.allocations ≡ some k
        → lookup c m'.machine.heap.allocations ≡ some k
    pub other_bytes :
        (c k i : ℕ)
        → c ≢ h.block
        → c ≢ master
        → lookup c m.machine.heap.allocations ≡ some k
        → i < k
        → byte m'.machine.memory (c + i) ≡ byte m.machine.memory (c + i)
    pub released :
        (x : ℕ)
        → hit b (max n 1) x + covers m'.machine.heap.free_ranges x
          ≡ hit h.block (max h.requested_size 1) x + covers m.machine.heap.free_ranges x

  abbrev pub ResizesHandle : Manager u → ℕ → ℕ → Handle → Result MemoryError ℕ × Manager u → Type 0
  ResizesHandle m master n h (ok b, m') = HandleResized m master n h b m'
  ResizesHandle m master n h (err e, m') =
      (m' ≡ m)
      × (max h.requested_size 1 < max n 1)
      × ((is_locked h.state_bits ≡ true) × (e ≡ locked_block)
          ⊎ (is_locked h.state_bits ≡ false)
            × (e ≡ exhausted)
            × ((c : ℕ) → c % 16 ≡ 0 → ¬ IsFree m.machine.heap.free_ranges c (max n 1)))

  module _ (m : Manager u) (master n : ℕ) (h : Handle) (o : Owns m master h) where
    resized :
        (r : Result MemoryError ℕ × Machine u)
        → realloc u h.block (pos n) (not (is_locked h.state_bits)) m.machine ≡ r
        → Resizes u h.block
            (max h.requested_size 1)
            (max n 1)
            (not (is_locked h.state_bits))
            m.machine
            r
        → ResizesHandle m master n h (resize u master (pos n) m)
    unfolding resize
    resized (err e, s) q f =
        rw (o.known, q)
          (
            ap (λ t. record m { machine = t }) f.0,
            f.1,
            elim f.2 [
              | inl x ↦ inl (double_negation x.0, x.1)
              | inr x ↦ inr (double_negation x.0, x.1, x.2)
            ],
          )
    resized (ok b, s) q f =
        let master_kept : lookup master s.heap.allocations ≡ some 4 =
          f.others master 4 o.apart o.master_allocated in
        let inside : (x : ℕ)
            → master ≤ x
            → x < master + 4
            → (s.heap.base ≤ x) × (x < s.heap.base + s.heap.size) =
          λ x. allocated_within master 4 x s.heap f.ready.valid master_kept in
        let within = inside master (omega arith) (omega arith) in
        let mapped_master : AllMapped (mapped s.memory) master 4 =
          λ x l r. f.ready.covered x (inside x l r).0 (inside x l r).1 in
        let small : master < 0x1_0000_0000 = omega (arith, f.ready.valid.bounded) in
        let b_within =
          allocated_within b (max n 1) b s.heap f.ready.valid f.new_size (omega arith)
            (omega arith) in
        let small_b : b < 0x1_0000_0000 = omega (arith, f.ready.valid.bounded) in
        let ne : b ≢ master = λ x. f.distinct master 4 o.apart o.master_allocated (sym x) in
        let away : (c k i : ℕ)
            → c ≢ master
            → lookup c s.heap.allocations ≡ some k
            → i < k
            → (c + i < master) ⊎ (master + 4 ≤ c + i) =
          λ c k i ne l r. elim (Bool-cases (ltb (c + i) master)) [
            | inl below ↦ inl (ground arith)
            | inr above ↦ elim (Bool-cases (ltb (c + i) (master + 4))) [
              | inl hit ↦ absurd (
                  allocated_apart c k master 4 (c + i) s.heap f.ready.valid ne l master_kept
                    (omega arith) (omega arith) (ground arith) (ground arith))
              | inr beyond ↦ inr (ground arith)
            ]
          ] in
        let outside : (i : ℕ) → i < max n 1 → (b + i < master) ⊎ (master + 4 ≤ b + i) =
          λ i. away b (max n 1) i ne f.new_size in
        let w = w32_lem u s.memory master b small mapped_master in
        rw (o.known, q, w.1)
          (record {
            owned = record {
              ready = record {
                valid = f.ready.valid;
                covered = λ x l r. w.2 x ∙ f.ready.covered x l r;
              };
              known = ground (
                arith,
                lookup-insert master master (record h { block = b; requested_size = n }) m.handles,
              );
              block_allocated = f.new_size;
              master_allocated = master_kept;
              apart = f.distinct master 4 o.apart o.master_allocated;
            };
            pointer =
                u32_lem u w.0 master b (byte s.memory) small small_b
                  (λ x l r. w.2 x ∙ mapped_master x l r) (λ x l r. w.3 x);
            content = λ i p r.
                w.3 (b + i)
                ∙ patched_outside master (be32 (b % 0x1_0000_0000)) (byte s.memory) (b + i)
                    (outside i r)
                ∙ f.content i p r;
            locked_stays = λ l. f.stays (inl (ap not l));
            other_handles = λ c other. ground (
              arith,
              lookup-insert master c (record h { block = b; requested_size = n }) m.handles,
            );
            others = f.others;
            other_bytes = λ c k i apart other l r.
                w.3 (c + i)
                ∙ patched_outside master (be32 (b % 0x1_0000_0000)) (byte s.memory) (c + i)
                    (away c k i other (f.others c k apart l) r)
                ∙ f.other_bytes c k i apart l r;
            released = f.released;
          })

    -- Where the heap is valid, its range mapped, and the handle's two blocks are allocated apart from
    -- one another, `resize` to a size of zero or more either updates the handle and its master
    -- pointer to a block of the new size with the old bytes that fit, at the same address where the
    -- handle is locked, and the handle owns both blocks again, with every other handle, block and its
    -- bytes as before and with the addresses of the old block, less those of the new one, free again;
    -- or it raises with nothing changed, and only for a block that was to grow: as locked where the
    -- handle is locked, as out of space where it is not and no free run is long enough.
    pub resize-ResizesHandle : ResizesHandle m master n h (resize u master (pos n) m)
    resize-ResizesHandle =
        resized (realloc u h.block (pos n) (not (is_locked h.state_bits)) m.machine) refl (
          realloc-Resizes u h.block (max h.requested_size 1) n m.machine o.ready o.block_allocated
            (not (is_locked h.state_bits)))
