-- ===== src/Memory/Realloc/Laws.antt =====
-- Heap.realloc keeps the heap valid and every byte that belongs to an allocation.
use cwhost.Base.{
  ℕ, ◌%◌, ◌+◌, ◌≤◌, ◌<◌, ◌≡◌, ◌≢◌, refl, max, min, ◌⊎◌, Bool, true, false, Option, none, some,
  arith, Bool-cases, inl, inr, ltb, leb, ◌==◌, ◌∙◌, sym, ap,
}
use mathlib.Core.Path.{subst}
use cwhost.Base.Int.{pos}
use cwhost.Base.Result.{Result, ok, err}
use cwhost.Base.Dict.{lookup, insert}
use cwhost.Memory.Heap.Blocks.{hit, covers}
use cwhost.Guest.{Emulator, AllMapped, bytes_from, patched}
use cwhost.Guest.Memory.{read_lem, write_lem, patched_outside, patched_copy, length-bytes_from}
use cwhost.Memory.{MemoryError, exhausted, locked_block}
use cwhost.Memory.Heap.{Heap, alloc, shrink, grow_in_place}
use cwhost.Memory.Heap.Invariant.{
  IsValid, covers_of_lookup, covers-update, lookup-positive, two_hits,
}
use cwhost.Memory.Heap.Fit.{IsFree}
use cwhost.Memory.Heap.Alloc.{Allocates, alloc-IsValid, alloc-Allocates, alloc_range}
use cwhost.Memory.Heap.Free.{free-IsValid, free_ok, free_rest, freed}
use cwhost.Memory.Heap.Resize.{shrink-IsValid, shrink_rest, GrownHeap, grow_in_place_lem}
use cwhost.Memory.Realloc.{Machine, copy, move, grow_or_move, resize_block, realloc}

pub allocated_within :
    (b m x : ℕ) (h : Heap)
    → IsValid h
    → lookup b h.allocations ≡ some m
    → b ≤ x
    → x < b + m
    → (h.base ≤ x) × (x < h.base + h.size)
allocated_within b m x h v e l r =
    ground (arith, covers_of_lookup b m x h.allocations e, v.partition x)

pub free_within :
    (b m x : ℕ) (h : Heap)
    → IsValid h
    → IsFree h.free_ranges b m
    → b ≤ x
    → x < b + m
    → (h.base ≤ x) × (x < h.base + h.size)
free_within b m x h v f l r = ground (arith, f x l r, v.partition x)

-- A free run and an allocation share no address.
pub free_apart :
    (a n b m x : ℕ) (h : Heap)
    → IsValid h
    → IsFree h.free_ranges a n
    → lookup b h.allocations ≡ some m
    → a ≤ x
    → x < a + n
    → b ≤ x
    → x < b + m
    → ⊥
free_apart a n b m x h v f e l r l' r' =
    ground (arith, f x l r, covers_of_lookup b m x h.allocations e, v.partition x)

module _ (u : Emulator) where
  open u use {State, mapped, byte, mem_read, mem_write, read_mapped, write_mapped}

  -- The heap is valid, and the guest's memory is mapped over all of it, as the constructor maps it.
  pub record IsReady (s : Machine u) : Type 0 where
    pub valid : IsValid s.heap
    pub covered : AllMapped (mapped s.memory) s.heap.base s.heap.size

  -- A copy between two ranges of the heap does not fault and writes just the target.
  pub copy_lem :
      (target source n : ℕ) (s : Machine u)
      → AllMapped (mapped s.memory) target n
      → AllMapped (mapped s.memory) source n
      → target < 0x1_0000_0000
      → source < 0x1_0000_0000
      → (m : State) × (copy u target source n s ≡ (ok tt, record s { memory = m }))
        × ((x : ℕ) → mapped m x ≡ mapped s.memory x)
        × ((x : ℕ)
            → byte m x ≡ patched target (bytes_from (byte s.memory) source n) (byte s.memory) x)
  unfolding copy
  copy_lem target source n s mt ms lt ls =
      let bs = bytes_from (byte s.memory) source n in
      let w = write_lem u s.memory target n bs lt (length-bytes_from (byte s.memory) source n) mt in
      (w.0, rw (read_lem u s.memory source n ls ms) (rw w.1 refl), w.2, w.3)

  -- How `realloc` of the `old` bytes at `a` to `amount` may end. Where it succeeds, at `b`: the heap
  -- is ready, the block has the new size, the bytes that both sizes hold are at `b`, a block that
  -- may not move has not moved, and every other allocation stands, at another address, with its bytes;
  -- the old block's addresses are free again, but for those that the new one takes, and no others.
  -- Where it raises: nothing has changed; the block was to grow, and either it may not move, or no
  -- aligned free run is as long as the new size.
  pub record Resized (a old amount : ℕ) (allow_move : Bool) (s : Machine u) (b : ℕ) (s' : Machine u)
      : Type 0 where
    pub ready : IsReady s'
    pub new_size : lookup b s'.heap.allocations ≡ some amount
    pub content : (i : ℕ) → i < old → i < amount → byte s'.memory (b + i) ≡ byte s.memory (a + i)
    pub stays : (allow_move ≡ false) ⊎ (amount ≤ old) → b ≡ a
    pub others :
        (c m : ℕ)
        → c ≢ a
        → lookup c s.heap.allocations ≡ some m
        → lookup c s'.heap.allocations ≡ some m
    pub distinct : (c m : ℕ) → c ≢ a → lookup c s.heap.allocations ≡ some m → c ≢ b
    pub other_bytes :
        (c m i : ℕ)
        → c ≢ a
        → lookup c s.heap.allocations ≡ some m
        → i < m
        → byte s'.memory (c + i) ≡ byte s.memory (c + i)
    pub released :
        (x : ℕ)
        → hit b amount x + covers s'.heap.free_ranges x ≡ hit a old x + covers s.heap.free_ranges x

  abbrev pub Resizes : ℕ → ℕ → ℕ → Bool → Machine u → Result MemoryError ℕ × Machine u → Type 0
  Resizes a old amount allow_move s (ok b, s') = Resized a old amount allow_move s b s'
  Resizes a old amount allow_move s (err e, s') =
      (s' ≡ s)
      × (old < amount)
      × ((allow_move ≡ false) × (e ≡ locked_block)
          ⊎ (allow_move ≡ true)
            × (e ≡ exhausted)
            × ((m : ℕ) → m % 16 ≡ 0 → ¬ IsFree s.heap.free_ranges m amount))

  module _ (a old n : ℕ) (s : Machine u) (ready : IsReady s)
      (e : lookup a s.heap.allocations ≡ some old) where
    -- the heap changed in place: the memory did not
    in_place :
        (allow_move : Bool) (h : Heap)
        → IsValid h
        → h.base ≡ s.heap.base
        → h.size ≡ s.heap.size
        → lookup a h.allocations ≡ some (max n 1)
        → ((b : ℕ) → b ≢ a → lookup b h.allocations ≡ lookup b s.heap.allocations)
        → h.allocations ≡ insert a (max n 1) s.heap.allocations
        → Resized a old (max n 1) allow_move s a (record s { heap = h })
    in_place allow_move h v eb es new same table = record {
      ready = record { valid = v; covered = rw (eb, es) ready.covered };
      new_size = new;
      content = λ i p q. refl;
      stays = λ c. refl;
      others = λ c m ne l. same c ne ∙ l;
      distinct = λ c m ne l. ne;
      other_bytes = λ c m i ne l p. refl;
      released = λ x.
          let whole : covers h.free_ranges x + covers (insert a (max n 1) s.heap.allocations) x
              ≡ hit s.heap.base s.heap.size x =
            rw (table, eb, es) at (v.partition x) in
          omega (
            arith,
            whole,
            ready.valid.partition x,
            covers-update a old (max n 1) x s.heap.allocations e,
          );
    }

    -- the block moves from `a` to `b`; `h₁` is the heap after the new block was taken
    moved :
        (allow_move : Bool) (b : ℕ) (h₁ : Heap)
        → alloc (pos n) (pos 16) s.heap ≡ (ok b, h₁)
        → IsValid h₁
        → h₁.base ≡ s.heap.base
        → h₁.size ≡ s.heap.size
        → Allocates 16 (max n 1) s.heap (ok b, h₁)
        → old < max n 1
        → allow_move ≡ true
        → Resizes a old (max n 1) allow_move s (move u a old n s)
    unfolding move
    moved allow_move b h₁ ea v₁ eb es al grows may =
        let v = ready.valid in
        let run : IsFree s.heap.free_ranges b (max n 1) = al.1 in
        let apart : (c m x : ℕ)
            → lookup c s.heap.allocations ≡ some m
            → b ≤ x
            → x < b + max n 1
            → c ≤ x
            → x < c + m
            → ⊥ =
          λ c m x. free_apart b (max n 1) c m x s.heap v run in
        let old_pos : 0 < old = lookup-positive a old s.heap.allocations v.positive e in
        let ne : b ≢ a =
          λ q. apart a old b e (omega arith) (omega arith) (omega arith) (omega arith) in
        let ea₁ : lookup a h₁.allocations ≡ some old = ground (arith, al.3 a) in
        let other : (c k : ℕ)
            → lookup c s.heap.allocations ≡ some k
            → lookup c h₁.allocations ≡ some k =
          λ c k l.
            ground (
              arith,
              al.3 c,
              l,
              apart c k b,
              lookup-positive c k s.heap.allocations v.positive l,
            ) in
        let target_mapped : AllMapped (mapped s.memory) b old = λ x p q.
          ready.covered x (free_within b (max n 1) x s.heap v run p (omega arith)).0
            (free_within b (max n 1) x s.heap v run p (omega arith)).1 in
        let source_mapped : AllMapped (mapped s.memory) a old = λ x p q.
          ready.covered x (allocated_within a old x s.heap v e p q).0
            (allocated_within a old x s.heap v e p q).1 in
        let m =
          copy_lem b a old (record s { heap = h₁ }) target_mapped source_mapped
            (omega (
              arith,
              free_within b (max n 1) b s.heap v run (omega arith) (omega arith),
              v.bounded,
            ))
            (omega (
              arith,
              allocated_within a old a s.heap v e (omega arith) (omega arith),
              v.bounded,
            )) in
        let least : min old (max n 1) ≡ old = omega arith in
        let busy : (old == 0) ≡ false = ground arith in
        let rest = free_rest a h₁ in
        let given_back = freed a old h₁ v₁ ea₁ in
        let width = length-bytes_from (byte s.memory) a old in
        rw (ea, least, busy, m.1)
          (rw (free_ok a old h₁ ea₁) (record {
            ready = record {
              valid = free-IsValid a h₁ v₁;
              covered = λ x p q.
                  m.2 x ∙ ready.covered x (omega (arith, rest.0)) (omega (arith, rest.0, rest.1));
            };
            new_size = rest.2 b ne ∙ ground (arith, al.3 b);
            content =
                λ i p q. m.3 (b + i) ∙ patched_copy b a old i (byte s.memory) (byte s.memory) p;
            released = λ x. omega (arith, al.4 x, given_back.1 x);
            stays = λ c. elim c [ inl q ↦ cc | inr q ↦ omega arith ];
            distinct = λ c k nc l q.
                apart c k b l (omega arith) (omega arith) (omega arith)
                  (omega (arith, lookup-positive c k s.heap.allocations v.positive l));
            others = λ c k nc l. rest.2 c nc ∙ other c k l;
            other_bytes = λ c k i nc l p.
                m.3 (c + i)
                ∙ patched_outside b (bytes_from (byte s.memory) a old) (byte s.memory) (c + i)
                    (elim (Bool-cases (ltb (c + i) b)) [
                      | inl below ↦ inl (ground arith)
                      | inr above ↦ inr (elim (Bool-cases (ltb (c + i) (b + old))) [
                        | inl inside ↦ absurd (
                            apart c k (c + i) l (ground arith) (ground arith) (omega arith)
                              (omega arith))
                        | inr beyond ↦ ground arith
                      ])
                    ]);
          }))

    move-Resizes :
        (allow_move : Bool) (r : Result MemoryError ℕ × Heap)
        → alloc (pos n) (pos 16) s.heap ≡ r
        → Allocates 16 (max n 1) s.heap r
        → old < max n 1
        → allow_move ≡ true
        → Resizes a old (max n 1) allow_move s (move u a old n s)
    move-Resizes allow_move (ok b, h₁) ea al grows may =
        let range = alloc_range (pos n) (pos 16) s.heap in
        moved allow_move b h₁ ea
          (subst IsValid (ap (λ r. r.1) ea) (alloc-IsValid (pos n) (pos 16) s.heap ready.valid))
          (ap (λ r. r.1.base) (sym ea) ∙ range.0) (ap (λ r. r.1.size) (sym ea) ∙ range.1) al grows
          may
    move-Resizes allow_move (err x, h₁) ea al grows may =
        unfold move in rw ea (ap (λ h. record s { heap = h }) al.1, grows, inr (may, al.0, al.2))

    grow_or_move-Resizes :
        (allow_move : Bool) (o : Option Heap)
        → old < max n 1
        → GrownHeap a old (max n 1) s.heap o
        → Resizes a old (max n 1) allow_move s (grow_or_move u allow_move a old n o s)
    grow_or_move-Resizes allow_move (some h) grows g = in_place allow_move h g.0 g.3 g.4 g.1 g.2 g.5
    grow_or_move-Resizes true none grows g =
        move-Resizes true (alloc (pos n) (pos 16) s.heap) refl
          (alloc-Allocates n 16 s.heap (omega arith) ready.valid) grows refl
    grow_or_move-Resizes false none grows g = (refl, grows, inl (refl, refl))

    resize_block-Resizes :
        (allow_move : Bool)
        → Resizes a old (max n 1) allow_move s (resize_block u allow_move a n (some old) s)
    resize_block-Resizes allow_move = elim (Bool-cases (leb (max n 1) old)) [
      | inl less ↦
          let rest = shrink_rest a old (max n 1) s.heap in
          rw less (
            in_place allow_move (shrink a old (max n 1) s.heap)
              (shrink-IsValid a old (max n 1) s.heap ready.valid e (omega arith) (ground arith))
              rest.2 rest.3 rest.0 rest.1 rest.4)
      | inr more ↦ rw more (
          grow_or_move-Resizes allow_move (grow_in_place a old (max n 1) s.heap) (ground arith)
            (grow_in_place_lem a old (max n 1) s.heap ready.valid e (ground arith)))
    ]

    -- On a valid heap whose range is mapped, `realloc` of an allocated block to a size of zero or more
    -- either gives a block of the new size with the old bytes that fit, in place where it may not
    -- move or does not grow, with every other block and its bytes as before, and with the addresses of
    -- the old block, less those of the new one, back in the free list and no others; or it raises with
    -- nothing changed, and only for a block that was to grow: as locked where it may not move, as out
    -- of space where it may and no free run at a multiple of 16 is long enough.
    pub realloc-Resizes :
        (allow_move : Bool)
        → Resizes a old (max n 1) allow_move s (realloc u a (pos n) allow_move s)
    unfolding realloc
    realloc-Resizes allow_move = rw e (resize_block-Resizes allow_move)

-- Two allocations at different addresses share no address.
pub allocated_apart :
    (a n b m x : ℕ) (h : Heap)
    → IsValid h
    → a ≢ b
    → lookup a h.allocations ≡ some n
    → lookup b h.allocations ≡ some m
    → a ≤ x
    → x < a + n
    → b ≤ x
    → x < b + m
    → ⊥
allocated_apart a n b m x h v ne e e' l r l' r' =
    ground (arith, two_hits a n b m x h.allocations ne e e', v.partition x)
