-- ===== src/Memory/Heap/Fit.antt =====
-- Heap.alloc, its search: what the first fit takes from the free list.
use cwhost.Base.{
  ℕ, zero, suc, ◌+◌, ◌-◌, ◌%◌, ◌≤◌, ◌<◌, ◌≡◌, Option, none, some, List, [], ◌∷◌, ◌++◌, arith, ltb,
  leb, Bool-cases, inl, inr, ◌⊎◌,
}
use cwhost.Memory.Heap.{Block, aligned, piece, keep_range, carve, fit, total_bytes}
use cwhost.Memory.Heap.Blocks.{
  hit, covers, IsSeparated, IsSeparated-mono, covers-below, covers-append, total_bytes-append,
}

aligned-le : (v a : ℕ) → 0 < a → v ≤ aligned v a
unfolding aligned
aligned-le v a h = grind arith

aligned-mod : (v a : ℕ) → 0 < a → aligned v a % a ≡ 0
unfolding aligned
aligned-mod v a h = grind arith

-- No multiple of the alignment lies between.
aligned-least : (v a m : ℕ) → 0 < a → m % a ≡ 0 → v ≤ m → aligned v a ≤ m
unfolding aligned
aligned-least v a m h e l = grind arith

covers-piece : (s n x : ℕ) → covers (piece s n) x ≡ hit s n x
covers-piece s n x = ground arith

total_bytes-piece : (s n : ℕ) → total_bytes (piece s n) ≡ n
unfolding total_bytes
total_bytes-piece s n = ground arith

-- An optional range in front of a separated list.
piece-IsSeparated :
    (lo s n : ℕ) (bs : List Block)
    → lo ≤ s
    → IsSeparated (suc (s + n)) bs
    → IsSeparated lo (piece s n ++ bs)
piece-IsSeparated lo s zero bs h p = IsSeparated-mono (suc (s + 0)) lo bs (omega arith) p
piece-IsSeparated lo s (suc n) bs h p = ground arith

-- What a successful search found in `bs`: the address `a`, and the ranges `cs` that are left.
pub record Fitted (lo align amount : ℕ) (bs : List Block) (a : ℕ) (cs : List Block) : Type 0 where
  pub at_boundary : a % align ≡ 0
  pub above : lo ≤ a
  pub separated : IsSeparated lo cs
  pub same : (x : ℕ) → hit a amount x + covers cs x ≡ covers bs x
  pub total : amount + total_bytes cs ≡ total_bytes bs

carve-Fitted :
    (lo align amount start available a : ℕ) (rest : List Block)
    → 0 < amount
    → a % align ≡ 0
    → start ≤ a
    → a - start + amount ≤ available
    → IsSeparated lo ((start, available) ∷ rest)
    → Fitted lo align amount ((start, available) ∷ rest) a (carve start available a amount rest)
unfolding total_bytes
carve-Fitted lo align amount start available a rest pos_amount m le room s =
    let tail = piece (a + amount) (available - (a - start) - amount) ++ rest in
    let whole : a + amount + (available - (a - start) - amount) ≡ start + available = omega arith in
    record {
      at_boundary = m;
      above = omega arith;
      separated = piece-IsSeparated lo start (a - start) tail s.0 (
          piece-IsSeparated (suc (start + (a - start))) (a + amount)
            (available - (a - start) - amount) rest (omega arith) (rw whole s.2));
      same = λ x. ground (
        arith,
        covers-append (piece start (a - start)) tail x,
        covers-append (piece (a + amount) (available - (a - start) - amount)) rest x,
        covers-piece start (a - start) x,
        covers-piece (a + amount) (available - (a - start) - amount) x,
      );
      total = omega (
        arith,
        total_bytes-append (piece start (a - start)) tail,
        total_bytes-append (piece (a + amount) (available - (a - start) - amount)) rest,
        total_bytes-piece start (a - start),
        total_bytes-piece (a + amount) (available - (a - start) - amount),
      );
    }

-- A range in front that the search passed over.
skip-Fitted :
    (lo align amount s n a : ℕ) (bs cs : List Block)
    → lo ≤ s
    → 0 < n
    → Fitted (suc (s + n)) align amount bs a cs
    → Fitted lo align amount ((s, n) ∷ bs) a ((s, n) ∷ cs)
unfolding total_bytes
skip-Fitted lo align amount s n a bs cs h p f = record {
  at_boundary = f.at_boundary;
  above = omega (arith, f.above);
  separated = (h, p, f.separated);
  same = λ x. omega (arith, f.same x);
  total = omega (arith, f.total);
}

-- All `n` addresses from `m` on are free.
abbrev pub IsFree : List Block → ℕ → ℕ → Type 0
IsFree bs m n = (x : ℕ) → m ≤ x → x < m + n → covers bs x ≡ 1

-- In a separated list a free run lies in one range.
IsFree-cons :
    (lo s n m k : ℕ) (bs : List Block)
    → 0 < k
    → IsSeparated lo ((s, n) ∷ bs)
    → IsFree ((s, n) ∷ bs) m k
    → ((s ≤ m) × (m + k ≤ s + n)) ⊎ ((s + n ≤ m) × IsFree bs m k)
IsFree-cons lo s n m k bs p sep run = elim (Bool-cases (leb (s + n) m)) [
  | inl behind ↦ inr (ground arith, λ x l u. ground (arith, run x l u))
  | inr front ↦ inl (
    ground (arith, run m, covers-below (suc (s + n)) bs m sep.2),
    ground (arith, run (s + n), covers-below (suc (s + n)) bs (s + n) sep.2),
  )
]

-- What the search promises: the lowest aligned address where the block fits, or that there is none.
abbrev pub FitResult : ℕ → ℕ → ℕ → List Block → Option (ℕ × List Block) → Type 0
FitResult lo align amount bs none = (m : ℕ) → m % align ≡ 0 → ¬ IsFree bs m amount
FitResult lo align amount bs (some (a, cs)) =
    Fitted lo align amount bs a cs × ((m : ℕ) → m % align ≡ 0 → IsFree bs m amount → a ≤ m)

keep_range-FitResult :
    (lo align amount s n : ℕ) (bs : List Block) (r : Option (ℕ × List Block))
    → 0 < align
    → 0 < amount
    → IsSeparated lo ((s, n) ∷ bs)
    → n < aligned s align - s + amount
    → FitResult (suc (s + n)) align amount bs r
    → FitResult lo align amount ((s, n) ∷ bs) (keep_range (s, n) r)
keep_range-FitResult lo align amount s n bs none pa pn sep small f = λ m b run.
    elim (IsFree-cons lo s n m amount bs pn sep run) [
      | inl (above, room) ↦ omega (arith, aligned-least s align m pa b above)
      | inr (behind, rest) ↦ f m b rest
    ]
keep_range-FitResult lo align amount s n bs (some (a, cs)) pa pn sep small f = (
  skip-Fitted lo align amount s n a bs cs sep.0 sep.1 f.0,
  λ m b run. elim (IsFree-cons lo s n m amount bs pn sep run) [
    | inl (above, room) ↦ absurd (omega (arith, aligned-least s align m pa b above))
    | inr (behind, rest) ↦ f.1 m b rest
  ],
)

pub fit_lem :
    (lo align amount : ℕ) (bs : List Block)
    → 0 < align
    → 0 < amount
    → IsSeparated lo bs
    → FitResult lo align amount bs (fit align amount bs)
unfolding fit
fit_lem lo align amount [] pa pn s = λ m b run. omega (arith, run m)
fit_lem lo align amount ((start, available) ∷ rest) pa pn s =
    elim (Bool-cases (ltb available (aligned start align - start + amount))) [
      | inl small ↦ rw small (
          keep_range-FitResult lo align amount start available rest (fit align amount rest) pa pn s
            (ground arith) (fit_lem (suc (start + available)) align amount rest pa pn s.2))
      | inr room ↦ rw room (
        carve-Fitted lo align amount start available (aligned start align) rest pn
            (aligned-mod start align pa) (aligned-le start align pa) (ground arith) s,
        λ m b run. elim (IsFree-cons lo start available m amount rest pn s run) [
          | inl (above, enough) ↦ aligned-least start align m pa b above
          | inr (behind, r) ↦ aligned-least start align m pa b (omega arith)
        ],
      )
    ]
