-- ===== src/Memory/Handles/New.antt =====
-- memory.py, Handles.new: what a new handle is, and what it leaves alone.
use cwhost.Base.{
  ℕ, ◌+◌, ◌≤◌, ◌<◌, ◌≡◌, ◌≢◌, ◌⊎◌, refl, sym, ◌∙◌, max, Bool, true, false, some, length, replicate,
  ltb, if◌then◌else◌, arith, Bool-cases, inl, inr, length-replicate,
}
use cwhost.Base.Int.{pos}
use cwhost.Base.Result.{Result, ok, err}
use cwhost.Base.Action.{pure, ◌>>◌}
use cwhost.Base.Dict.{lookup, insert, lookup-insert}
use cwhost.Guest.{Emulator, AllMapped}
use cwhost.Guest.Memory.{patched_zeros, u32, w32_lem, u32_lem, write_lem, patched_outside}
use cwhost.Memory.{MemoryError, exhausted}
use cwhost.Memory.Heap.{Heap, alloc}
use cwhost.Memory.Heap.Invariant.{IsValid, lookup-positive}
use cwhost.Memory.Heap.Alloc.{Allocates, alloc-Allocates, alloc-IsValid, alloc_range}
use cwhost.Memory.Realloc.Laws.{IsReady, allocated_within, allocated_apart, free_apart}
use cwhost.Memory.Handles.{Manager, new, store_u32, store_zeros}
use cwhost.Memory.Handles.Resize.{Owns}

-- What an allocation of `amount` bytes does to the books.
pub record Placed (h : Heap) (amount a : ℕ) (h' : Heap) : Type 0 where
  pub valid : IsValid h'
  pub base_kept : h'.base ≡ h.base
  pub size_kept : h'.size ≡ h.size
  pub placed : lookup a h'.allocations ≡ some amount
  pub fresh : (c k : ℕ) → lookup c h.allocations ≡ some k → c ≢ a
  pub kept : (c k : ℕ) → lookup c h.allocations ≡ some k → lookup c h'.allocations ≡ some k

abbrev pub Places : ℕ → Heap → Result MemoryError ℕ × Heap → Type 0
Places amount h (ok a, h') = Placed h amount a h'
Places amount h (err e, h') = (e ≡ exhausted) × (h' ≡ h)

pub alloc-Places :
    (n align : ℕ) (h : Heap)
    → 0 < align
    → IsValid h
    → Places (max n 1) h (alloc (pos n) (pos align) h)
alloc-Places n align h p v =
    go (alloc (pos n) (pos align) h) (alloc-IsValid (pos n) (pos align) h v)
      (alloc_range (pos n) (pos align) h) (alloc-Allocates n align h p v)
  where
    go :
        (r : Result MemoryError ℕ × Heap)
        → IsValid r.1
        → (r.1.base ≡ h.base) × (r.1.size ≡ h.size)
        → Allocates align (max n 1) h r
        → Places (max n 1) h r
    go (err e, h') v' range al = (al.0, al.1)
    go (ok a, h') v' range al =
        let fresh : (c k : ℕ) → lookup c h.allocations ≡ some k → c ≢ a = λ c k l q.
          free_apart a (max n 1) c k a h v al.1 l (omega arith) (omega arith) (omega (arith, q))
            (omega (arith, q, lookup-positive c k h.allocations v.positive l)) in
        record {
          valid = v';
          base_kept = range.0;
          size_kept = range.1;
          placed = ground (arith, al.3 a);
          fresh = fresh;
          kept = λ c k l. ground (arith, al.3 c, fresh c k l);
        }

module _ (u : Emulator) where
  open u use {State, byte, mapped}

  -- A new handle at `master`: it owns its blocks, its master pointer shows its block, it is unlocked,
  -- and `clear` zeroes its bytes. Neither block was allocated before, no allocation is lost and no
  -- other handle changes.
  pub record NewHandle (m : Manager u) (n : ℕ) (clear : Bool) (master : ℕ) (m' : Manager u)
      : Type 0 where
    pub block : ℕ
    pub owned :
        Owns u m' master
          (record { master = master; block = block; requested_size = n; state_bits = 0 })
    pub pointer : u32 u m'.machine.memory master ≡ some block
    pub cleared : (i : ℕ) → clear ≡ true → i < max n 1 → byte m'.machine.memory (block + i) ≡ 0
    pub fresh :
        (c k : ℕ) → lookup c m.machine.heap.allocations ≡ some k → (c ≢ master) × (c ≢ block)
    pub kept :
        (c k : ℕ)
        → lookup c m.machine.heap.allocations ≡ some k
        → lookup c m'.machine.heap.allocations ≡ some k
    pub other_handles : (c : ℕ) → c ≢ master → lookup c m'.handles ≡ lookup c m.handles

  -- How `new` may end. Where it raises, for lack of space, the heap is valid, and neither the memory
  -- nor a handle has changed.
  abbrev pub MakesHandle : Manager u → ℕ → Bool → Result MemoryError ℕ × Manager u → Type 0
  MakesHandle m n clear (ok master, m') = NewHandle m n clear master m'
  MakesHandle m n clear (err e, m') =
      (e ≡ exhausted)
      × IsReady u m'.machine
      × (m'.machine.memory ≡ m.machine.memory)
      × (m'.handles ≡ m.handles)

  module _ (m : Manager u) (n : ℕ) (ready : IsReady u m.machine) where
    -- both blocks are placed
    module _ (a b : ℕ) (h₁ h₂ : Heap) (f : Placed m.machine.heap (max n 1) a h₁)
        (g : Placed h₁ 4 b h₂) where
      block_kept : lookup a h₂.allocations ≡ some (max n 1)
      block_kept = g.kept a (max n 1) f.placed

      -- the manager with the new handle, over some memory
      abbrev new_manager : State → Manager u
      new_manager s = record {
        machine = record { heap = h₂; memory = s };
        handles =
            insert b (record { master = b; block = a; requested_size = n; state_bits = 0 })
              m.handles;
      }

      covers_all :
          (s : State)
          → ((x : ℕ) → mapped s x ≡ mapped m.machine.memory x)
          → AllMapped (mapped s) h₂.base h₂.size
      covers_all s e x l r =
          e x
          ∙ ready.covered x (omega (arith, f.base_kept, g.base_kept))
              (omega (arith, f.base_kept, g.base_kept, f.size_kept, g.size_kept))

      -- an allocation lies in mapped memory, below 2 ^ 32
      reach :
          (s : State)
          → AllMapped (mapped s) h₂.base h₂.size
          → (c k : ℕ) → lookup c h₂.allocations ≡ some k
          → 0 < k
          → (c < 0x1_0000_0000) × AllMapped (mapped s) c k
      reach s e c k l p = (
        omega (
          arith,
          allocated_within c k c h₂ g.valid l (omega arith) (omega arith),
          g.valid.bounded,
        ),
        (λ x q r.
            e x (allocated_within c k x h₂ g.valid l q r).0
              (allocated_within c k x h₂ g.valid l q r).1),
      )

      made :
          (clear : Bool) (s : State)
          → ((x : ℕ) → mapped s x ≡ mapped m.machine.memory x)
          → u32 u s b ≡ some a
          → ((i : ℕ) → clear ≡ true → i < max n 1 → byte s (a + i) ≡ 0)
          → NewHandle m n clear b (new_manager s)
      made clear s e pointer cleared = record {
        block = a;
        owned = record {
          ready = record { valid = g.valid; covered = covers_all s e };
          known = ground (
            arith,
            lookup-insert b b (record { master = b; block = a; requested_size = n; state_bits = 0 })
                m.handles,
          );
          block_allocated = block_kept;
          master_allocated = g.placed;
          apart = λ q. g.fresh a (max n 1) f.placed (sym q);
        };
        pointer = pointer;
        cleared = cleared;
        fresh = λ c k l. (g.fresh c k (f.kept c k l), f.fresh c k l);
        kept = λ c k l. g.kept c k (f.kept c k l);
        other_handles = λ c ne. ground (
          arith,
          lookup-insert b c (record { master = b; block = a; requested_size = n; state_bits = 0 })
              m.handles,
        );
      }

      -- the master pointer lies outside of the block
      outside :
          (x : ℕ) → b ≤ x → x < b + 4 → (x < a) ⊎ (a + length {A = ℕ} (replicate (max n 1) 0) ≤ x)
      outside x l r =
          let width = length-replicate {0} {A = ℕ} (max n 1) 0 in
          let clash =
            allocated_apart a (max n 1) b 4 x h₂ g.valid (g.fresh a (max n 1) f.placed) block_kept
              g.placed in
          elim (Bool-cases (ltb x a)) [
            | inl below ↦ inl (ground arith)
            | inr above ↦ elim (Bool-cases (ltb x (a + max n 1))) [
              | inl hit ↦ absurd (clash (ground arith) (ground arith) l r)
              | inr beyond ↦ inr (ground (arith, width))
            ]
          ]

      -- the writes of `new`: the master pointer, and the zeros
      stored :
          (clear : Bool)
          → MakesHandle m n clear (
              (store_u32 u b a
                  >> ((if clear then store_zeros u a (max n 1) else pure tt) >> pure b))
                (new_manager m.machine.memory))
      stored clear =
          let s₀ = m.machine.memory in
          let at_master = reach s₀ (covers_all s₀ (λ x. refl)) b 4 g.placed (omega arith) in
          let at_block =
            reach s₀ (covers_all s₀ (λ x. refl)) a (max n 1) block_kept (omega arith) in
          let w = w32_lem u s₀ b a at_master.0 at_master.1 in
          let pointer =
            u32_lem u w.0 b a (byte s₀) at_master.0 at_block.0 (λ x l r. w.2 x ∙ at_master.1 x l r)
              (λ x l r. w.3 x) in
          let z =
            write_lem u w.0 a (max n 1) (replicate (max n 1) 0) at_block.0
              (length-replicate {0} {A = ℕ} (max n 1) 0) (λ x l r. w.2 x ∙ at_block.1 x l r) in
          let same : (x : ℕ) → mapped z.0 x ≡ mapped s₀ x = λ x. z.2 x ∙ w.2 x in
          rw w.1
            (elim clear
              as (λ c. MakesHandle m n c (
                ((if c then store_zeros u a (max n 1) else pure tt) >> pure b) (new_manager w.0))) [
                  | false ↦ made false w.0 w.2 pointer (λ i q l. cc)
                  | true ↦ rw z.1 (
                      made true z.0 same
                        (u32_lem u z.0 b a (byte s₀) at_master.0 at_block.0
                          (λ x l r. same x ∙ at_master.1 x l r)
                          (λ x l r.
                            z.3 x
                            ∙ patched_outside a (replicate (max n 1) 0) (byte w.0) x (outside x l r)
                            ∙ w.3 x))
                        (λ i q l. z.3 (a + i) ∙ patched_zeros a (max n 1) i (byte w.0) l))
                ])

    with_master :
        (clear : Bool) (a : ℕ) (h₁ : Heap) (r : Result MemoryError ℕ × Heap)
        → alloc (pos n) (pos 16) m.machine.heap ≡ (ok a, h₁)
        → Placed m.machine.heap (max n 1) a h₁
        → alloc (pos 4) (pos 4) h₁ ≡ r
        → Places 4 h₁ r
        → MakesHandle m n clear (new u (pos n) clear m)
    unfolding new
    with_master clear a h₁ (err e, h₂) q f q' g =
        rw (q, q')
          (
            g.0,
            rw g.1 (record {
              valid = f.valid;
              covered = λ x l r.
                  ready.covered x (omega (arith, f.base_kept))
                    (omega (arith, f.base_kept, f.size_kept));
            }),
            refl,
            refl,
          )
    with_master clear a h₁ (ok b, h₂) q f q' g = rw (q, q') (stored a b h₁ h₂ f g clear)

    with_block :
        (clear : Bool) (r : Result MemoryError ℕ × Heap)
        → alloc (pos n) (pos 16) m.machine.heap ≡ r
        → Places (max n 1) m.machine.heap r
        → MakesHandle m n clear (new u (pos n) clear m)
    with_block clear (ok a, h₁) q f =
        with_master clear a h₁ (alloc (pos 4) (pos 4) h₁) q f refl
          (alloc-Places 4 4 h₁ (omega arith) f.valid)
    with_block clear (err e, h₁) q f = unfold new in rw q (f.0, rw f.1 ready, refl, refl)

    -- On a valid heap whose range is mapped, `new` with a size of zero or more either makes a handle
    -- that is unlocked and owns two blocks at addresses where no allocation started, shows its block
    -- in its master pointer and, where it is to be cleared, holds zeros, with every other allocation
    -- and handle kept; or it raises for lack of space, with the heap valid and neither memory nor
    -- handles changed.
    pub new-MakesHandle : (clear : Bool) → MakesHandle m n clear (new u (pos n) clear m)
    new-MakesHandle clear =
        with_block clear (alloc (pos n) (pos 16) m.machine.heap) refl
          (alloc-Places n 16 m.machine.heap (omega arith) ready.valid)
