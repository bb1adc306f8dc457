-- ===== src/Memory/Heap/Invariant.antt =====
-- The invariant of the heap, and that a new heap meets it.
use cwhost.Base.{
  ℕ, zero, suc, ◌+◌, ◌<◌, ◌≤◌, ◌≡◌, ◌≢◌, refl, none, some, [], ◌∷◌, arith, Bool-cases, inl, inr,
  ltb,
}
use cwhost.Base.Int.{ℤ, pos, negsuc}
use cwhost.Base.Result.{ok}
use cwhost.Base.Dict.{Dict, lookup, insert, erase}
use cwhost.Memory.Heap.{Heap, heap_new, total_bytes}
use cwhost.Memory.Heap.Blocks.{hit, covers, IsSeparated, AllPositive}

-- The free list is sorted, its ranges are non-empty and no two of them touch; each address of the
-- heap lies in exactly one free range or allocation, and no other address in any.
pub record IsValid (h : Heap) : Type 0 where
  pub separated : IsSeparated 0 h.free_ranges
  pub positive : AllPositive h.allocations
  pub partition : (x : ℕ) → covers h.free_ranges x + covers h.allocations x ≡ hit h.base h.size x
  pub bounded : h.base + h.size ≤ 0x1_0000_0000
  pub total : total_bytes h.free_ranges + total_bytes h.allocations ≡ h.size

-- A heap that the constructor makes is valid: its free ranges are sorted and do not touch, each
-- address of its range lies in exactly one free range or allocation, and their sizes add up.
pub heap_new-IsValid : (base size : ℤ) {h : Heap} → heap_new base size ≡ ok h → IsValid h
unfolding heap_new total_bytes
heap_new-IsValid base (negsuc n) e = cc
heap_new-IsValid base (pos zero) e = cc
heap_new-IsValid (negsuc b) (pos (suc n)) e = cc
heap_new-IsValid (pos b) (pos (suc n)) {h} e = elim (Bool-cases (ltb 0x1_0000_0000 (b + suc n))) [
  | inl over ↦ absurd (ground arith)
  | inr fits ↦
      let made : record { base = b; size = suc n; free_ranges = (b, suc n) ∷ []; allocations = [] }
          ≡ h =
        ground arith in
      rw (← made) (record {
        separated = omega arith;
        positive = tt;
        partition = λ x. omega arith;
        bounded = ground arith;
        total = omega arith;
      })
]

-- An allocation covers its own addresses.
pub covers_of_lookup : (a n x : ℕ) (d : Dict ℕ) → lookup a d ≡ some n → hit a n x ≤ covers d x
covers_of_lookup a n x [] e = cc
covers_of_lookup a n x ((b, m) ∷ d) e = ground (arith, covers_of_lookup a n x d)

pub lookup-positive : (a n : ℕ) (d : Dict ℕ) → AllPositive d → lookup a d ≡ some n → 0 < n
lookup-positive a n [] p e = cc
lookup-positive a n ((b, m) ∷ d) p e = ground (arith, lookup-positive a n d)

-- At an address that no allocation covers, none starts.
pub lookup-none : (a : ℕ) (d : Dict ℕ) → AllPositive d → covers d a ≡ 0 → lookup a d ≡ none
lookup-none a [] p e = refl
lookup-none a ((b, m) ∷ d) p e = ground (arith, lookup-none a d)

pub covers-insert :
    (a n x : ℕ) (d : Dict ℕ) → lookup a d ≡ none → covers (insert a n d) x ≡ hit a n x + covers d x
covers-insert a n x [] e = omega arith
covers-insert a n x ((b, m) ∷ d) e = ground (arith, covers-insert a n x d)

pub covers-erase :
    (a n x : ℕ) (d : Dict ℕ) → lookup a d ≡ some n → hit a n x + covers (erase a d) x ≡ covers d x
covers-erase a n x [] e = cc
covers-erase a n x ((b, m) ∷ d) e = ground (arith, covers-erase a n x d)

pub covers-update :
    (a n m x : ℕ) (d : Dict ℕ)
    → lookup a d ≡ some n
    → hit a n x + covers (insert a m d) x ≡ hit a m x + covers d x
covers-update a n m x [] e = cc
covers-update a n m x ((b, k) ∷ d) e = ground (arith, covers-update a n m x d)

pub insert-AllPositive : (a n : ℕ) (d : Dict ℕ) → 0 < n → AllPositive d → AllPositive (insert a n d)
insert-AllPositive a n [] h p = (h, tt)
insert-AllPositive a n ((b, m) ∷ d) h p = ground (arith, insert-AllPositive a n d h)

pub erase-AllPositive : (a : ℕ) (d : Dict ℕ) → AllPositive d → AllPositive (erase a d)
erase-AllPositive a [] p = p
erase-AllPositive a ((b, m) ∷ d) p = ground (arith, erase-AllPositive a d)

pub total-insert :
    (a n : ℕ) (d : Dict ℕ) → lookup a d ≡ none → total_bytes (insert a n d) ≡ n + total_bytes d
unfolding total_bytes
total-insert a n [] e = refl
total-insert a n ((b, m) ∷ d) e = ground (arith, total-insert a n d)

pub total-erase :
    (a n : ℕ) (d : Dict ℕ) → lookup a d ≡ some n → n + total_bytes (erase a d) ≡ total_bytes d
unfolding total_bytes
total-erase a n [] e = cc
total-erase a n ((b, m) ∷ d) e = ground (arith, total-erase a n d)

pub total-update :
    (a n m : ℕ) (d : Dict ℕ)
    → lookup a d ≡ some n
    → n + total_bytes (insert a m d) ≡ m + total_bytes d
unfolding total_bytes
total-update a n m [] e = cc
total-update a n m ((b, k) ∷ d) e = ground (arith, total-update a n m d)

-- Two allocations at different addresses both count.
pub two_hits :
    (a n b m x : ℕ) (d : Dict ℕ)
    → a ≢ b
    → lookup a d ≡ some n
    → lookup b d ≡ some m
    → hit a n x + hit b m x ≤ covers d x
two_hits a n b m x [] ne e e' = cc
two_hits a n b m x ((c, k) ∷ d) ne e e' =
    ground (arith, two_hits a n b m x d ne, covers_of_lookup a n x d, covers_of_lookup b m x d)
