-- ===== src/Resources/Chain/Order.antt =====
-- The order of the open files: membership, and what list.remove leaves.
use cwhost.Base.{
  ℕ, ◌≡◌, ◌≢◌, ◌⊎◌, Bool, true, false, ◌||◌, ◌&&◌, not, none, some, List, [], ◌∷◌, ◌++◌, ◌==◌, refl,
  arith, Bool-cases, Option-cases, inl, inr,
}
use cwhost.Resources.Chain.{remove, last}

abbrev pub member : ℕ → List ℕ → Bool
member r [] = false
member r (x ∷ xs) = (x == r) || member r xs

-- no number twice
abbrev pub Once : List ℕ → Type 0
Once [] = Unit {0}
Once (x ∷ xs) = (member x xs ≡ false) × Once xs

pub member-append : (r x : ℕ) (xs : List ℕ) → member r (xs ++ x ∷ []) ≡ (member r xs || (x == r))
member-append r x [] = ground arith
member-append r x (y ∷ xs) = ground (arith, member-append r x xs)

pub append-Once : (x : ℕ) (xs : List ℕ) → member x xs ≡ false → Once xs → Once (xs ++ x ∷ [])
append-Once x [] new h = (refl, tt)
append-Once x (y ∷ xs) new h = ground (arith, append-Once x xs, member-append y x xs)

-- what `remove` leaves of a list
remove_cons :
    (r x : ℕ) (xs : List ℕ) {ys : List ℕ}
    → remove r (x ∷ xs) ≡ some ys
    → ((x ≡ r) × (xs ≡ ys))
      ⊎ ((x ≢ r) × (rest : List ℕ) × (remove r xs ≡ some rest) × (x ∷ rest ≡ ys))
remove_cons r x xs {ys = ys} q = elim (Bool-cases (x == r)) [
  | inl here ↦ let e : some xs ≡ some ys = rw here at q in inl (ground arith, cc)
  | inr other ↦ elim (Option-cases (remove r xs)) [
    | inl stuck ↦ let e : none ≡ some ys = rw (other, stuck) at q in absurd cc
    | inr (rest, found) ↦
        let e : some (x ∷ rest) ≡ some ys = rw (other, found) at q in
        inr (ground arith, rest, found, cc)
  ]
]

-- a number that is in the list differs from one that is not
member-cong : (r j : ℕ) (xs : List ℕ) → member r xs ≡ false → (r == j) ≡ true → member j xs ≡ false
member-cong r j xs h e = let same : r ≡ j = ground arith in rw same at h

pub member-remove :
    (r j : ℕ) (xs : List ℕ) {ys : List ℕ}
    → Once xs
    → remove r xs ≡ some ys
    → member j ys ≡ (member j xs && not (r == j))
member-remove r j [] h q = cc
member-remove r j (x ∷ xs) {ys = ys} h q = elim (remove_cons r x xs q) [
  | inl (here, e) ↦
      let new : member r xs ≡ false = rw here at h.0 in
      rw (← e, here) (ground (arith, member-cong r j xs))
  | inr (other, rest, found, e) ↦ rw (← e) (ground (arith, member-remove r j xs h.1 found))
]

pub remove-Once : (r : ℕ) (xs : List ℕ) {ys : List ℕ} → Once xs → remove r xs ≡ some ys → Once ys
remove-Once r [] h q = absurd cc
remove-Once r (x ∷ xs) h q = elim (remove_cons r x xs q) [
  | inl (here, e) ↦ rw (← e) h.1
  | inr (other, rest, found, e) ↦
      rw (← e) (rw (member-remove r x xs h.1 found, h.0) refl, remove-Once r xs h.1 found)
]

pub remove-some :
    (r : ℕ) (xs : List ℕ) → member r xs ≡ true → (ys : List ℕ) × (remove r xs ≡ some ys)
remove-some r [] h = absurd cc
remove-some r (x ∷ xs) h = elim (Bool-cases (x == r)) [
  | inl here ↦ rw here (xs, refl)
  | inr other ↦
      let (ys, found) = remove-some r xs (rw other at h) in rw (other, found) (x ∷ ys, refl)
]

pub last-some : (xs : List ℕ) {r : ℕ} → last xs ≡ some r → member r xs ≡ true
last-some [] q = cc
last-some (x ∷ []) q = let e : some x ≡ some _ = q in ground arith
last-some (x ∷ y ∷ rest) q = ground (arith, last-some (y ∷ rest) q)

pub last-none : (xs : List ℕ) → last xs ≡ none → xs ≡ []
last-none [] q = refl
last-none (x ∷ []) q = cc
last-none (x ∷ y ∷ rest) q = let e = last-none (y ∷ rest) q in cc

pub remove_last : (r : ℕ) (xs : List ℕ) → member r xs ≡ false → remove r (xs ++ r ∷ []) ≡ some xs
remove_last r [] h = ground arith
remove_last r (x ∷ xs) h =
    let other : (x == r) ≡ false = ground arith in
    let rest : member r xs ≡ false = ground arith in rw (other, remove_last r xs rest) refl
