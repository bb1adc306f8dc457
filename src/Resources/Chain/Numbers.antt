-- ===== src/Resources/Chain/Numbers.antt =====
-- The reference number that ResourceChain.open picks.
use cwhost.Base.{
  ℕ, zero, suc, ◌+◌, ◌≡◌, ◌≤◌, ◌<◌, ◌∙◌, true, false, [], ◌∷◌, length, ◌==◌, refl, arith,
  Bool-cases, inl, inr,
}
use cwhost.Base.Dict.{Dict, IsDict, has_key, erase, has_key-erase, erase-IsDict}
use cwhost.Resources.{ResourceFork}
use cwhost.Resources.Chain.{free_refnum}

length-erase :
    (k : ℕ) (d : Dict ResourceFork) → has_key k d ≡ true → suc (length (erase k d)) ≡ length d
length-erase k [] h = absurd cc
length-erase k ((j, w) ∷ d) h = ground (arith, length-erase k d)

pub free_refnum_ge : (fuel s : ℕ) (d : Dict ResourceFork) → s ≤ free_refnum fuel s d
free_refnum_ge zero s d = omega arith
free_refnum_ge (suc fuel) s d = ground (arith, free_refnum_ge fuel (s + 1) d)

-- a key below the numbers that are tried does not matter
free_refnum-erase :
    (fuel s k : ℕ) (d : Dict ResourceFork)
    → IsDict d
    → k < s
    → free_refnum fuel s (erase k d) ≡ free_refnum fuel s d
free_refnum-erase zero s k d h less = refl
free_refnum-erase (suc fuel) s k d h less =
    let other : (k == s) ≡ false = ground arith in
    let same : has_key s (erase k d) ≡ has_key s d = has_key-erase k s d h ∙ ground arith in
    rw (same, free_refnum-erase fuel (s + 1) k d h (omega arith)) refl

-- The search ends on a number that is no key, where it may try as many numbers as there are keys.
pub free_refnum_free :
    (fuel s : ℕ) (d : Dict ResourceFork)
    → IsDict d
    → length d ≤ fuel
    → has_key (free_refnum fuel s d) d ≡ false
free_refnum_free zero s [] h few = refl
free_refnum_free zero s (e ∷ d) h few = absurd (omega arith)
free_refnum_free (suc fuel) s d h few = elim (Bool-cases (has_key s d)) [
  | inr free ↦ rw (free, free) refl
  | inl taken ↦
      let r = free_refnum fuel (s + 1) d in
      let gone : has_key r (erase s d) ≡ false =
        rw (← free_refnum-erase fuel (s + 1) s d h (omega arith)) (
          free_refnum_free fuel (s + 1) (erase s d) (erase-IsDict s d h)
            (omega (arith, length-erase s d taken))) in
      let split = has_key-erase s r d h in
      let above = free_refnum_ge fuel (s + 1) d in rw taken (ground arith)
]

-- every number that the search passes over is a key
pub free_refnum_taken :
    (fuel s : ℕ) (d : Dict ResourceFork) (j : ℕ)
    → s ≤ j
    → j < free_refnum fuel s d
    → has_key j d ≡ true
free_refnum_taken zero s d j low high = absurd (omega arith)
free_refnum_taken (suc fuel) s d j low high = elim (Bool-cases (has_key s d)) [
  | inr free ↦ let e : j < s = rw free at high in absurd (omega arith)
  | inl taken ↦
      let e : j < free_refnum fuel (s + 1) d = rw taken at high in
      elim (Bool-cases (s == j)) [
        | inl here ↦ let same : s ≡ j = ground arith in rw same at taken
        | inr other ↦ free_refnum_taken fuel (s + 1) d j (ground arith) e
      ]
]
