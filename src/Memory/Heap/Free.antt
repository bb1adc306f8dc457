-- ===== src/Memory/Heap/Free.antt =====
-- Heap.free: what it gives back.
use cwhost.Base.{ℕ, ◌+◌, ◌≡◌, ◌≢◌, sym, refl, Option, none, some, ◌∷◌, arith}
use mathlib.Core.Path.{subst}
use cwhost.Base.Dict.{lookup, lookup-erase_ne}
use cwhost.Base.Result.{Result, ok, err}
use cwhost.Memory.{MemoryError, heap_address}
use cwhost.Memory.Heap.{Heap, give_back, free, total_bytes}
use cwhost.Memory.Heap.Blocks.{hit, covers, IsDisjoint, insert_free-Returned}
use cwhost.Memory.Heap.Invariant.{
  IsValid, covers_of_lookup, lookup-positive, covers-erase, erase-AllPositive, total-erase,
}

-- An allocation shares no address with the free list.
pub allocated-IsDisjoint :
    (a n : ℕ) (h : Heap)
    → IsValid h
    → lookup a h.allocations ≡ some n
    → IsDisjoint ((a, n) ∷ h.free_ranges)
allocated-IsDisjoint a n h v e x =
    ground (arith, covers_of_lookup a n x h.allocations e, v.partition x)

-- How `free` may end. On an allocation of `n` bytes: its addresses are free again, the allocation
-- is gone. On another address: it raises and changes nothing.
abbrev pub Frees : ℕ → Heap → Option ℕ → Result MemoryError (Unit {0}) × Heap → Type 0
Frees a h none r = r ≡ (err heap_address, h)
Frees a h (some n) (r, h') =
    (r ≡ ok tt)
    × ((x : ℕ) → covers h'.free_ranges x ≡ hit a n x + covers h.free_ranges x)
    × ((x : ℕ) → hit a n x + covers h'.allocations x ≡ covers h.allocations x)
    × (total_bytes h'.free_ranges ≡ n + total_bytes h.free_ranges)

give_back-Frees :
    (a : ℕ) (o : Option ℕ) (h : Heap)
    → IsValid h
    → lookup a h.allocations ≡ o
    → Frees a h o (give_back a o h)
give_back-Frees a none h v e = refl
give_back-Frees a (some n) h v e =
    let r =
      insert_free-Returned a n h.free_ranges (lookup-positive a n h.allocations v.positive e)
        v.separated (allocated-IsDisjoint a n h v e) in
    (refl, r.same, (λ x. covers-erase a n x h.allocations e), r.total)

give_back-IsValid :
    (a : ℕ) (o : Option ℕ) (h : Heap)
    → IsValid h
    → lookup a h.allocations ≡ o
    → IsValid (give_back a o h).1
give_back-IsValid a none h v e = v
give_back-IsValid a (some n) h v e =
    let r =
      insert_free-Returned a n h.free_ranges (lookup-positive a n h.allocations v.positive e)
        v.separated (allocated-IsDisjoint a n h v e) in
    record {
      separated = r.separated;
      positive = erase-AllPositive a h.allocations v.positive;
      partition = λ x. omega (arith, r.same x, covers-erase a n x h.allocations e, v.partition x);
      bounded = v.bounded;
      total = omega (arith, r.total, total-erase a n h.allocations e, v.total);
    }

-- `free` keeps a valid heap valid, whatever its address, also where it raises.
pub free-IsValid : (a : ℕ) (h : Heap) → IsValid h → IsValid (free a h).1
unfolding free
free-IsValid a h v = give_back-IsValid a (lookup a h.allocations) h v refl

-- On a valid heap `free` of an allocated address gives all the bytes of its block, and no others,
-- back to the free list, and forgets the block; at another address it raises and changes nothing.
pub free-Frees : (a : ℕ) (h : Heap) → IsValid h → Frees a h (lookup a h.allocations) (free a h)
unfolding free
free-Frees a h v = give_back-Frees a (lookup a h.allocations) h v refl

give_back_rest :
    (a : ℕ) (o : Option ℕ) (h : Heap)
    → ((give_back a o h).1.base ≡ h.base)
      × ((give_back a o h).1.size ≡ h.size)
      × ((c : ℕ) → c ≢ a → lookup c (give_back a o h).1.allocations ≡ lookup c h.allocations)
give_back_rest a none h = (refl, refl, λ c ne. refl)
give_back_rest a (some n) h =
    (refl, refl, λ c ne. lookup-erase_ne a c h.allocations (λ e. ne (sym e)))

-- Freeing moves neither the heap nor another allocation.
pub free_rest :
    (a : ℕ) (h : Heap)
    → ((free a h).1.base ≡ h.base)
      × ((free a h).1.size ≡ h.size)
      × ((c : ℕ) → c ≢ a → lookup c (free a h).1.allocations ≡ lookup c h.allocations)
unfolding free
free_rest a h = give_back_rest a (lookup a h.allocations) h

pub free_ok :
    (a n : ℕ) (h : Heap) → lookup a h.allocations ≡ some n → free a h ≡ (ok tt, (free a h).1)
unfolding free
free_ok a n h e = rw e refl

-- freeing an address that is allocated
pub freed :
    (a n : ℕ) (h : Heap)
    → IsValid h
    → lookup a h.allocations ≡ some n
    → Frees a h (some n) (free a h)
freed a n h v e = subst (λ o. Frees a h o (free a h)) e (free-Frees a h v)
