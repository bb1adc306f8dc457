-- ===== src/Base/Dict.antt =====
-- Python's dictionaries with integer keys, as association lists in insertion order.
use Prim.Native.Nat.{ℕ}
use mathlib.Core.Path.{◌≡◌, refl, sym, ap, ◌∙◌}
use mathlib.Core.Logic.{◌≢◌, inl, inr}
use mathlib.Core.Bool.{Bool, true, false, not, ◌&&◌, ◌||◌}
use mathlib.Core.Option.{Option, none, some}
use mathlib.Core.List.{List, [], ◌∷◌, ◌++◌}
use native.Mathlib.Omega.{arith}
use cwhost.Base.Tests.{Bool-cases, if◌then◌else◌, ◌==◌}

abbrev pub Dict : Type 0 → Type 0
Dict V = List (ℕ × V)

module _ {V : Type 0} where
  -- d.get(key)
  abbrev pub lookup : ℕ → Dict V → Option V
  lookup k [] = none
  lookup k ((j, v) ∷ d) = if j == k then some v else lookup k d

  -- key in d
  abbrev pub has_key : ℕ → Dict V → Bool
  has_key k [] = false
  has_key k ((j, v) ∷ d) = (j == k) || has_key k d

  -- A dictionary holds no key twice.
  abbrev pub IsDict : Dict V → Type 0
  IsDict [] = Unit {0}
  IsDict ((k, v) ∷ d) = (has_key k d ≡ false) × IsDict d

  -- d[key] = value: a new key goes to the end, an old one keeps its place
  abbrev pub insert : ℕ → V → Dict V → Dict V
  insert k v [] = (k, v) ∷ []
  insert k v ((j, w) ∷ d) = if j == k then (j, v) ∷ d else (j, w) ∷ insert k v d

  -- d.pop(key, None)
  abbrev pub erase : ℕ → Dict V → Dict V
  erase k [] = []
  erase k ((j, w) ∷ d) = if j == k then d else (j, w) ∷ erase k d

  pub lookup-insert :
      (k j : ℕ) (v : V) (d : Dict V)
      → lookup j (insert k v d) ≡ (if k == j then some v else lookup j d)
  lookup-insert k j v [] = refl
  lookup-insert k j v ((i, w) ∷ d) = ground (arith, lookup-insert k j v d)

  pub lookup-erase_ne : (k j : ℕ) (d : Dict V) → k ≢ j → lookup j (erase k d) ≡ lookup j d
  lookup-erase_ne k j [] ne = refl
  lookup-erase_ne k j ((i, w) ∷ d) ne = ground (arith, lookup-erase_ne k j d ne)

  pub insert_new :
      (k : ℕ) (v : V) (d : Dict V) → lookup k d ≡ none → insert k v d ≡ d ++ (k, v) ∷ []
  insert_new k v [] e = refl
  insert_new k v ((i, w) ∷ d) e = ground (arith, insert_new k v d)

  lookup-none : (k : ℕ) (d : Dict V) → has_key k d ≡ false → lookup k d ≡ none
  lookup-none k [] h = refl
  lookup-none k ((j, v) ∷ d) h = ground (arith, lookup-none k d)

  -- a key that is popped is gone
  pub lookup-erase_self : (k : ℕ) (d : Dict V) → IsDict d → lookup k (erase k d) ≡ none
  lookup-erase_self k [] h = refl
  lookup-erase_self k ((j, v) ∷ d) h = elim (Bool-cases (j == k)) [
    | inl here ↦
        let e : j ≡ k = ground arith in
        rw here (lookup-none k d (ap (λ i. has_key i d) (sym e) ∙ h.0))
    | inr other ↦ rw other (rw other (lookup-erase_self k d h.1))
  ]

  pub has_key-insert :
      (k j : ℕ) (v : V) (d : Dict V) → has_key j (insert k v d) ≡ (has_key j d || (k == j))
  has_key-insert k j v [] = ground arith
  has_key-insert k j v ((i, w) ∷ d) = ground (arith, has_key-insert k j v d)

  pub insert-IsDict : (k : ℕ) (v : V) (d : Dict V) → IsDict d → IsDict (insert k v d)
  insert-IsDict k v [] h = (refl, tt)
  insert-IsDict k v ((i, w) ∷ d) h = ground (arith, insert-IsDict k v d, has_key-insert k i v d)

  pub has_key-erase :
      (k j : ℕ) (d : Dict V) → IsDict d → has_key j (erase k d) ≡ (has_key j d && not (k == j))
  has_key-erase k j [] h = refl
  has_key-erase k j ((i, w) ∷ d) h = ground (arith, has_key-erase k j d, h)

  pub erase-IsDict : (k : ℕ) (d : Dict V) → IsDict d → IsDict (erase k d)
  erase-IsDict k [] h = tt
  erase-IsDict k ((i, w) ∷ d) h = ground (arith, erase-IsDict k d, has_key-erase k i d)

  pub has_key-some : (k : ℕ) (d : Dict V) {v : V} → lookup k d ≡ some v → has_key k d ≡ true
  has_key-some k [] q = cc
  has_key-some k ((i, w) ∷ d) {v = v} q = elim (Bool-cases (i == k)) [
    | inl here ↦ rw here refl
    | inr other ↦ rw other (has_key-some k d (rw other at q))
  ]

  pub lookup-has_key : (k : ℕ) (d : Dict V) → has_key k d ≡ true → (v : V) × (lookup k d ≡ some v)
  lookup-has_key k [] h = absurd cc
  lookup-has_key k ((i, w) ∷ d) h = elim (Bool-cases (i == k)) [
    | inl here ↦ rw here (w, refl)
    | inr other ↦ rw other (lookup-has_key k d (rw other at h))
  ]

  pub erase_last :
      (k : ℕ) (v : V) (d : Dict V) → has_key k d ≡ false → erase k (d ++ (k, v) ∷ []) ≡ d
  erase_last k v [] h = ground arith
  erase_last k v ((i, w) ∷ d) h = ground (arith, erase_last k v d)

  pub erase-insert : (k : ℕ) (v : V) (d : Dict V) → has_key k d ≡ false → erase k (insert k v d) ≡ d
  erase-insert k v d h = rw (insert_new k v d (lookup-none k d h)) (erase_last k v d h)
