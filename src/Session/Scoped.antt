-- ===== src/Session/Scoped.antt =====
-- session.py, Session._free_request_handles: the handles of a request are freed, no others.
use cwhost.Base.{
  ℕ, max, ◌+◌, ◌≡◌, ◌≢◌, ◌∙◌, true, false, Bool-cases, inl, inr, some, [], ◌∷◌, ◌++◌, refl, sym, ap,
  arith, if◌then◌else◌,
}
use mathlib.Core.List.{append_assoc}
use mathlib.Core.Path.{subst}
use cwhost.Base.Result.{Result, ok}
use cwhost.Base.Dict.{Dict, lookup, has_key, erase}
use cwhost.Guest.{Emulator}
use cwhost.Memory.Heap.{Heap, free}
use cwhost.Memory.Heap.Invariant.{IsValid}
use cwhost.Memory.Heap.Free.{free-IsValid, free_rest, free_ok, freed}
use cwhost.Memory.Heap.Blocks.{hit, covers}
use cwhost.Session.{
  SessionError, CwMemHandle, Session, free_cw_handle, free_scoped, free_request_handles,
}

-- an allocation of `n` bytes
abbrev pub IsAllocated : Heap → ℕ → ℕ → Type 0
IsAllocated h a n = lookup a h.allocations ≡ some n

-- no handle of the table uses an address
abbrev pub Avoids : ℕ → Dict CwMemHandle → Type 0
Avoids x [] = Unit {0}
Avoids x ((a, item) ∷ items) = (a ≢ x) × (item.block ≢ x) × Avoids x items

-- Every handle stands under its own address; its record of eight bytes and its block are allocated, at
-- least one byte, and no two of all these addresses are the same.
abbrev pub Held : Heap → Dict CwMemHandle → Type 0
Held h [] = Unit {0}
Held h ((a, item) ∷ items) =
    (item.handle ≡ a)
    × IsAllocated h a 8
    × IsAllocated h item.block (max item.size 1)
    × (item.block ≢ a)
    × Avoids a items
    × Avoids item.block items
    × Held h items

-- the handles that outlive the request
abbrev pub lasting : Dict CwMemHandle → Dict CwMemHandle
lasting [] = []
lasting ((a, item) ∷ items) =
    let rest = lasting items in if item.request_scoped then rest else (a, item) ∷ rest

free_keeps : (h : Heap) (x a n : ℕ) → a ≢ x → IsAllocated h a n → IsAllocated (free x h).1 a n
free_keeps h x a n ne q = (free_rest x h).2 a ne ∙ q

free-Held :
    (h : Heap) (x : ℕ) (items : Dict CwMemHandle)
    → Avoids x items
    → Held h items
    → Held (free x h).1 items
free-Held h x [] away held = tt
free-Held h x ((a, item) ∷ items) (ne, ne', away)
      (at, record_there, block_there, apart, own, own_block, held) =
    (
      at,
      free_keeps h x a 8 ne record_there,
      free_keeps h x item.block (max item.size 1) ne' block_there,
      apart,
      own,
      own_block,
      free-Held h x items away held,
    )

lookup_behind :
    (a : ℕ) (item : CwMemHandle) (before items : Dict CwMemHandle)
    → has_key a before ≡ false
    → lookup a (before ++ (a, item) ∷ items) ≡ some item
lookup_behind a item [] items absent = ground arith
lookup_behind a item ((b, other) ∷ before) items absent =
    ground (arith, lookup_behind a item before items)

erase_behind :
    (a : ℕ) (item : CwMemHandle) (before items : Dict CwMemHandle)
    → has_key a before ≡ false
    → erase a (before ++ (a, item) ∷ items) ≡ before ++ items
erase_behind a item [] items absent = ground arith
erase_behind a item ((b, other) ∷ before) items absent =
    ground (arith, erase_behind a item before items)

-- a table that no handle of another one stands in
abbrev Clear : Dict CwMemHandle → Dict CwMemHandle → Type 0
Clear before [] = Unit {0}
Clear before ((a, item) ∷ items) = (has_key a before ≡ false) × Clear before items

has_key-append :
    (a b : ℕ) (item : CwMemHandle) (before : Dict CwMemHandle)
    → b ≢ a
    → has_key a before ≡ false
    → has_key a (before ++ (b, item) ∷ []) ≡ false
has_key-append a b item [] ne absent = ground arith
has_key-append a b item ((c, other) ∷ before) ne absent =
    ground (arith, has_key-append a b item before)

Clear-append :
    (b : ℕ) (item : CwMemHandle) (before items : Dict CwMemHandle)
    → Avoids b items
    → Clear before items
    → Clear (before ++ (b, item) ∷ []) items
Clear-append b item before [] away clear = tt
Clear-append b item before ((a, other) ∷ items) (ne, ne', away) (absent, clear) = (
  has_key-append a b item before (λ e. ne (sym e)) absent,
  Clear-append b item before items away clear,
)

Clear-empty : (items : Dict CwMemHandle) → Clear [] items
Clear-empty [] = tt
Clear-empty ((a, item) ∷ items) = (refl, Clear-empty items)

-- the handles that end with the request
abbrev pub ending : Dict CwMemHandle → Dict CwMemHandle
ending [] = []
ending ((a, item) ∷ items) =
    let rest = ending items in if item.request_scoped then (a, item) ∷ rest else rest

-- how often the records and the blocks of some handles cover an address
abbrev pub hits : Dict CwMemHandle → ℕ → ℕ
hits [] x = 0
hits ((a, item) ∷ items) x = hit a 8 x + (hit item.block (max item.size 1) x + hits items x)

module _ (u : Emulator) where
  abbrev heap_of : Session u → Heap
  heap_of s = s.manager.machine.heap

  -- a session with another heap and other handles
  abbrev with_heap : Heap → Dict CwMemHandle → Session u → Session u
  with_heap h d s = record s {
    manager = record s.manager { machine = record s.manager.machine { heap = h } };
    cw_handles = d;
  }

  free_cw_handle_lem :
      (a : ℕ) (item : CwMemHandle) (s : Session u)
      → lookup a s.cw_handles ≡ some item
      → item.handle ≡ a
      → IsAllocated (heap_of s) item.block (max item.size 1)
      → IsAllocated (free item.block (heap_of s)).1 a 8
      → free_cw_handle u a s
        ≡ (ok tt, with_heap (free a (free item.block (heap_of s)).1).1 (erase a s.cw_handles) s)
  unfolding free_cw_handle
  free_cw_handle_lem a item s known at block_there record_there =
      rw (known, at, free_ok item.block (max item.size 1) (heap_of s) block_there)
        (rw (free_ok a 8 (free item.block (heap_of s)).1 record_there) refl)

  -- the end of the loop, with the handles that it has passed over
  record Freed (before items : Dict CwMemHandle) (s : Session u)
      (out : Result SessionError (Unit {0}) × Session u) : Type 0 where
    pub succeeds : out.0 ≡ ok tt
    pub left : out.1.cw_handles ≡ before ++ lasting items
    pub valid : IsValid (heap_of out.1)
    pub kept :
        (c : ℕ)
        → Avoids c (ending items)
        → lookup c (heap_of out.1).allocations ≡ lookup c (heap_of s).allocations
    pub released :
        (x : ℕ)
        → covers (heap_of out.1).free_ranges x
          ≡ hits (ending items) x + covers (heap_of s).free_ranges x

  passed :
      (a : ℕ) (item : CwMemHandle) (items : Dict CwMemHandle) (s : Session u)
      → item.request_scoped ≡ false
      → free_scoped u ((a, item) ∷ items) s ≡ free_scoped u items s
  unfolding free_scoped
  passed a item items s lasts = rw lasts refl

  stepped :
      (a : ℕ) (item : CwMemHandle) (items : Dict CwMemHandle) (s mid : Session u)
      → item.request_scoped ≡ true
      → free_cw_handle u a s ≡ (ok tt, mid)
      → free_scoped u ((a, item) ∷ items) s ≡ free_scoped u items mid
  unfolding free_scoped
  stepped a item items s mid ends step = rw ends (rw step refl)

  free_scoped-Freed :
      (before items : Dict CwMemHandle) (s : Session u)
      → s.cw_handles ≡ before ++ items
      → Clear before items
      → IsValid (heap_of s)
      → Held (heap_of s) items
      → Freed before items s (free_scoped u items s)
  free_scoped-Freed before [] s table clear valid held =
      unfold free_scoped in
      record {
        succeeds = refl;
        left = table;
        valid = valid;
        kept = λ c away. refl;
        released = λ x. omega arith;
      }
  free_scoped-Freed before ((a, item) ∷ items) s table (absent, clear) valid
        (at, record_there, block_there, apart, own, own_block, held) =
      elim (Bool-cases item.request_scoped) [
        | inr lasts ↦
            let table1 = table ∙ sym (append_assoc before ((a, item) ∷ []) items) in
            let rest =
              free_scoped-Freed (before ++ (a, item) ∷ []) items s table1
                (Clear-append a item before items own clear) valid held in
            let stays : lasting ((a, item) ∷ items) ≡ (a, item) ∷ lasting items =
              ap (λ b. if b then lasting items else (a, item) ∷ lasting items) lasts in
            let unended : ending ((a, item) ∷ items) ≡ ending items =
              ap (λ b. if b then (a, item) ∷ ending items else ending items) lasts in
            subst (Freed before ((a, item) ∷ items) s) (sym (passed a item items s lasts)) (record {
              succeeds = rest.succeeds;
              left =
                  rest.left
                  ∙ append_assoc before ((a, item) ∷ []) (lasting items)
                  ∙ ap (λ d. before ++ d) (sym stays);
              valid = rest.valid;
              kept = λ c away. rest.kept c (subst (Avoids c) unended away);
              released = λ x. omega (arith, rest.released x, ap (λ d. hits d x) unended);
            })
        | inl ends ↦
            let h₁ = (free item.block (heap_of s)).1 in
            let h₂ = (free a h₁).1 in
            let there = free_keeps (heap_of s) item.block a 8 (λ e. apart (sym e)) record_there in
            let known = ap (lookup a) table ∙ lookup_behind a item before items absent in
            let mid = with_heap h₂ (erase a s.cw_handles) s in
            let step =
              stepped a item items s mid ends
                (free_cw_handle_lem a item s known at block_there there) in
            let table1 = ap (erase a) table ∙ erase_behind a item before items absent in
            let held1 =
              free-Held h₁ a items own (free-Held (heap_of s) item.block items own_block held) in
            let rest =
              free_scoped-Freed before items mid table1 clear
                (free-IsValid a h₁ (free-IsValid item.block (heap_of s) valid)) held1 in
            let gone : lasting ((a, item) ∷ items) ≡ lasting items =
              ap (λ b. if b then lasting items else (a, item) ∷ lasting items) ends in
            let ended : ending ((a, item) ∷ items) ≡ (a, item) ∷ ending items =
              ap (λ b. if b then (a, item) ∷ ending items else ending items) ends in
            subst (Freed before ((a, item) ∷ items) s) (sym step) (record {
              succeeds = rest.succeeds;
              left = rest.left ∙ ap (λ d. before ++ d) (sym gone);
              valid = rest.valid;
              kept = λ c away.
                  let (ne, ne', away1) = subst (Avoids c) ended away in
                  rest.kept c away1
                  ∙ (free_rest a h₁).2 c (λ e. ne (sym e))
                  ∙ (free_rest item.block (heap_of s)).2 c (λ e. ne' (sym e));
              released = λ x.
                  let block_back =
                    (freed item.block (max item.size 1) (heap_of s) valid block_there).1 x in
                  let record_back =
                    (freed a 8 h₁ (free-IsValid item.block (heap_of s) valid) there).1 x in
                  omega (arith, rest.released x, ap (λ d. hits d x) ended, block_back, record_back);
            })
      ]

  -- Where the heap is valid, and the session's handles stand under their own addresses with records and
  -- blocks that are allocated with their sizes and all different, the end of a request frees the handles
  -- of the request: no error is raised, the handles that are not the request's are left in their order,
  -- the heap is valid, the addresses of the request's records and blocks are free again and no others,
  -- and every other allocation is as before.
  pub free_request_handles-Freed :
      (s : Session u)
      → IsValid s.manager.machine.heap
      → Held s.manager.machine.heap s.cw_handles
      → ((free_request_handles u s).0 ≡ ok tt)
        × ((free_request_handles u s).1.cw_handles ≡ lasting s.cw_handles)
        × IsValid (free_request_handles u s).1.manager.machine.heap
        × ((c : ℕ)
            → Avoids c (ending s.cw_handles)
            → lookup c (free_request_handles u s).1.manager.machine.heap.allocations
              ≡ lookup c s.manager.machine.heap.allocations)
        × ((x : ℕ)
            → covers (free_request_handles u s).1.manager.machine.heap.free_ranges x
              ≡ hits (ending s.cw_handles) x + covers s.manager.machine.heap.free_ranges x)
  unfolding free_request_handles
  free_request_handles-Freed s valid held =
      let end = free_scoped-Freed [] s.cw_handles s refl (Clear-empty s.cw_handles) valid held in
      (end.succeeds, end.left, end.valid, end.kept, end.released)
