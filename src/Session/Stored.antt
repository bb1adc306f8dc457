-- ===== src/Session/Stored.antt =====
-- session.py, Session._alloc_cw_handle: what a new memory handle of the plug-in holds.
use cwhost.Base.{
  ℕ, ◌+◌, ◌-◌, ◌≡◌, ◌≢◌, ◌<◌, ◌≤◌, ◌∙◌, ◌==◌, max, ltb, Bool, true, Bool-cases, inl, inr, some,
  length, refl, ap, arith,
}
use cwhost.Base.Int.{pos}
use cwhost.Base.Result.{Result, ok, err}
use cwhost.Base.Bytes.{Bytes}
use cwhost.Base.Dict.{lookup, insert, lookup-insert}
use cwhost.Guest.{Emulator, AllMapped}
use cwhost.Memory.{MemoryError, exhausted}
use cwhost.Memory.Heap.{Heap, alloc}
use cwhost.Memory.Heap.Invariant.{IsValid}
use cwhost.Memory.Realloc.Laws.{IsReady, allocated_within, allocated_apart}
use cwhost.Memory.Handles.New.{Placed, Places, alloc-Places}
use cwhost.Base.Action.{pure, ◌>>◌}
use cwhost.Session.{
  SessionError, memory, CwMemHandle, Session, set_memory, set_handle, store_data, store_u32,
  alloc_cw_handle, cw_handle, cw_handle_bytes,
}
use cwhost.Session.Words.{data_stored, word_stored, Shows, three_Shows}

module _ (u : Emulator) where
  open u use {State, mapped, byte}

  -- A new memory handle `a` that shows some bytes: the session knows it, its bytes are read back, its
  -- record and its block were not allocated before, and all other allocations and handles are kept.
  pub record NewCwHandle (s : Session u) (bytes : Bytes) (scoped : Bool) (a : ℕ) (out : Session u)
      : Type 0 where
    pub block : ℕ
    pub ready : IsReady u out.manager.machine
    pub known :
        lookup a out.cw_handles
        ≡ some (record { handle = a; block = block; size = length bytes; request_scoped = scoped })
    pub shows : cw_handle_bytes u a out ≡ (ok bytes, out)
    pub record_fresh : (c k : ℕ) → lookup c s.manager.machine.heap.allocations ≡ some k → c ≢ a
    pub block_fresh : (c k : ℕ) → lookup c s.manager.machine.heap.allocations ≡ some k → c ≢ block
    pub kept :
        (c k : ℕ)
        → lookup c s.manager.machine.heap.allocations ≡ some k
        → lookup c out.manager.machine.heap.allocations ≡ some k
    pub other_handles : (c : ℕ) → c ≢ a → lookup c out.cw_handles ≡ lookup c s.cw_handles

  abbrev pub MakesCwHandle : Session u → Bytes → Bool → Result SessionError ℕ × Session u → Type 0
  MakesCwHandle s bytes scoped (ok a, out) = NewCwHandle s bytes scoped a out
  MakesCwHandle s bytes scoped (err e, out) =
      (e ≡ memory exhausted)
      × IsReady u out.manager.machine
      × (out.manager.machine.memory ≡ s.manager.machine.memory)
      × (out.cw_handles ≡ s.cw_handles)

  -- a handle's bytes, by what the memory shows
  shown :
      (a b : ℕ) (bytes : Bytes) (scoped : Bool) (s : Session u)
      → lookup a s.cw_handles
        ≡ some (record { handle = a; block = b; size = length bytes; request_scoped = scoped })
      → Shows u s.manager.machine.memory a b bytes
      → cw_handle_bytes u a s ≡ (ok bytes, s)
  unfolding cw_handle_bytes cw_handle
  shown a b bytes scoped s known shows =
      let at_block : (b == b) ≡ true = ground arith in
      let at_size : (length bytes == length bytes) ≡ true = ground arith in
      rw known (rw (shows.pointer, at_block) (rw (shows.size, at_size) (rw shows.content refl)))

  module _ (s : Session u) (bytes : Bytes) (scoped : Bool)
      (ready : IsReady u s.manager.machine) where
    abbrev with_heap : Heap → Session u
    with_heap h = record s {
      manager = record s.manager { machine = record s.manager.machine { heap = h } };
    }

    -- an allocation lies in mapped memory, below 2 ^ 32
    within :
        (h : Heap) (c k : ℕ)
        → IsValid h
        → h.base ≡ s.manager.machine.heap.base
        → h.size ≡ s.manager.machine.heap.size
        → lookup c h.allocations ≡ some k
        → 0 < k
        → (c + k ≤ 0x1_0000_0000) × AllMapped (mapped s.manager.machine.memory) c k
    within h c k valid same_base same_size there positive = (
      omega (
        arith,
        (allocated_within c k (c + k - 1) h valid there (omega arith) (omega arith)).1,
        valid.bounded,
      ),
      (λ x l r.
          let inside = allocated_within c k x h valid there l r in
          ready.covered x (omega (arith, inside.0, same_base))
            (omega (arith, inside.1, same_base, same_size))),
    )

    module _ (a b : ℕ) (h₁ h₂ : Heap) (f : Placed s.manager.machine.heap 8 a h₁)
        (g : Placed h₁ (max (length bytes) 1) b h₂) where
      abbrev item : CwMemHandle
      item = record { handle = a; block = b; size = length bytes; request_scoped = scoped }

      -- the session at the end, over some memory
      abbrev ended : State → Session u
      ended m = record (set_memory u m (with_heap h₂)) { cw_handles = insert a item s.cw_handles }

      ended_new :
          (m : State)
          → ((x : ℕ) → mapped m x ≡ mapped s.manager.machine.memory x)
          → Shows u m a b bytes
          → NewCwHandle s bytes scoped a (ended m)
      ended_new m same shows =
          let known : lookup a (insert a item s.cw_handles) ≡ some item =
            ground (arith, lookup-insert a a item s.cw_handles) in
          record {
            block = b;
            ready = record {
              valid = g.valid;
              covered = λ x l r.
                  same x
                  ∙ ready.covered x (omega (arith, f.base_kept, g.base_kept))
                      (omega (arith, f.base_kept, f.size_kept, g.base_kept, g.size_kept));
            };
            known = known;
            shows = shown a b bytes scoped (ended m) known shows;
            record_fresh = f.fresh;
            block_fresh = λ c k there. g.fresh c k (f.kept c k there);
            kept = λ c k there. g.kept c k (f.kept c k there);
            other_handles = λ c ne. ground (arith, lookup-insert a c item s.cw_handles);
          }

      finished : MakesCwHandle s bytes scoped (
          (store_data u bytes b
              >> (store_u32 u a b
                  >> (store_u32 u (a + 4) (length bytes) >> (set_handle u item >> pure a))))
            (with_heap h₂))
      finished =
          let at_record =
            within h₂ a 8 g.valid (g.base_kept ∙ f.base_kept) (g.size_kept ∙ f.size_kept)
              (g.kept a 8 f.placed) (omega arith) in
          let at_block =
            within h₂ b (max (length bytes) 1) g.valid (g.base_kept ∙ f.base_kept)
              (g.size_kept ∙ f.size_kept) g.placed (omega arith) in
          let block_in : AllMapped (mapped s.manager.machine.memory) b (length bytes) =
            λ x l r. at_block.1 x l (omega arith) in
          let w₁ = data_stored u bytes b (with_heap h₂) (omega (arith, at_block.0)) block_in in
          let s₁ = set_memory u w₁.after (with_heap h₂) in
          let w₂ =
            word_stored u a b s₁ (omega (arith, at_record.0))
              (λ x l r. w₁.same x ∙ at_record.1 x l (omega arith)) in
          let s₂ = set_memory u w₂.after s₁ in
          let w₃ =
            word_stored u (a + 4) (length bytes) s₂ (omega (arith, at_record.0))
              (λ x l r. w₂.same x ∙ w₁.same x ∙ at_record.1 x (omega arith) (omega arith)) in
          let same : (x : ℕ) → mapped w₃.after x ≡ mapped s.manager.machine.memory x =
            λ x. w₃.same x ∙ w₂.same x ∙ w₁.same x in
          let apart : (x : ℕ) → a ≤ x → x < a + 8 → b ≤ x → x < b + max (length bytes) 1 → ⊥ =
            λ x l r l' r'.
              allocated_apart a 8 b (max (length bytes) 1) x h₂ g.valid (g.fresh a 8 f.placed)
                (g.kept a 8 f.placed) g.placed l r l' r' in
          let short : length bytes < 0x1_0000_0000 =
            elim (Bool-cases (ltb (length bytes) 0x1_0000_0000)) [
              | inl less ↦ ground arith
              | inr more ↦
                  let whole : 0x1_0000_0000 ≤ length bytes = ground arith in
                  absurd (
                    apart a (omega arith) (omega arith) (omega (arith, at_block.0))
                      (omega (arith, at_record.0)))
            ] in
          let shows =
            three_Shows u s.manager.machine.memory w₁.after w₂.after w₃.after a b bytes at_record.0
              (omega (arith, at_block.0)) short (λ x l r. same x ∙ at_record.1 x l r)
              (λ x l r. same x ∙ block_in x l r) (λ x l r l' r'. apart x l r l' (omega arith))
              w₁.holds w₂.holds w₃.holds in
          rw w₁.ends (rw w₂.ends (rw w₃.ends (ended_new w₃.after same shows)))

    with_block :
        (a : ℕ) (h₁ : Heap) (r : Result MemoryError ℕ × Heap)
        → alloc (pos 8) (pos 4) s.manager.machine.heap ≡ (ok a, h₁)
        → Placed s.manager.machine.heap 8 a h₁
        → alloc (pos (length bytes)) (pos 4) h₁ ≡ r
        → Places (max (length bytes) 1) h₁ r
        → MakesCwHandle s bytes scoped (alloc_cw_handle u bytes scoped s)
    unfolding alloc_cw_handle
    with_block a h₁ (err e, h₂) q f q' g =
        rw (q, q')
          (
            ap memory g.0,
            rw g.1 (record {
              valid = f.valid;
              covered = λ x l r.
                  ready.covered x (omega (arith, f.base_kept))
                    (omega (arith, f.base_kept, f.size_kept));
            }),
            refl,
            refl,
          )
    with_block a h₁ (ok b, h₂) q f q' g = rw (q, q') (finished a b h₁ h₂ f g)

    with_record :
        (r : Result MemoryError ℕ × Heap)
        → alloc (pos 8) (pos 4) s.manager.machine.heap ≡ r
        → Places 8 s.manager.machine.heap r
        → MakesCwHandle s bytes scoped (alloc_cw_handle u bytes scoped s)
    with_record (ok a, h₁) q f =
        with_block a h₁ (alloc (pos (length bytes)) (pos 4) h₁) q f refl
          (alloc-Places (length bytes) 4 h₁ (omega arith) f.valid)
    with_record (err e, h₁) q f =
        unfold alloc_cw_handle in rw q (ap memory f.0, rw f.1 ready, refl, refl)

    -- On a valid heap whose range is mapped, a memory handle for some bytes is either made: the session
    -- knows it, its bytes are read back as given, its record and its block were not allocated before,
    -- and other allocations and handles are kept; or the heap is exhausted, and neither the memory nor
    -- the table of handles has changed.
    pub alloc_cw_handle-MakesCwHandle :
        MakesCwHandle s bytes scoped (alloc_cw_handle u bytes scoped s)
    alloc_cw_handle-MakesCwHandle =
        with_record (alloc (pos 8) (pos 4) s.manager.machine.heap) refl
          (alloc-Places 8 4 s.manager.machine.heap (omega arith) ready.valid)
