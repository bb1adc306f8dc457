-- ===== src/Base/Map.antt =====
-- Python's dictionaries with keys of a type that has an equality test, in insertion order.
use Prim.Native.Nat.{ℕ}
use Prim.Native.String.{String}
use text.Mathlib.Text.{◌==◌ as str_eq}
use text.Mathlib.TextEquality.{eq_iff}
use mathlib.Core.Path.{◌≡◌, refl, sym, ap, ◌∙◌}
use mathlib.Core.Logic.{◌↔◌, inl, inr}
use mathlib.Core.Bool.{Bool, true, false, ◌&&◌, ◌||◌}
use mathlib.Core.Option.{Option, none, some}
use mathlib.Core.List.{List, [], ◌∷◌}
use native.Mathlib.Omega.{arith}
use cwhost.Base.Tests.{Bool-cases, if◌then◌else◌, ==_iff}
use cwhost.Base.Tests as Tests
use cwhost.Base.Int.{ℤ, pos, negsuc}

pub record Eq {ℓ} (A : Type ℓ) : Type ℓ where
  pub beq : A → A → Bool
  pub beq_iff : (a b : A) → (beq a b ≡ true) ↔ (a ≡ b)

module _ {K : Type 0} ⦃e : Eq K⦄ where
  -- two keys that differ one way differ the other way
  pub beq_sym : (j k : K) → e.beq j k ≡ false → e.beq k j ≡ false
  beq_sym j k ne = elim (Bool-cases (e.beq k j)) [
    | inl same ↦
        let e1 : e.beq j k ≡ true = (e.beq_iff j k).1 (sym ((e.beq_iff k j).0 same)) in absurd cc
    | inr other ↦ other
  ]

abbrev beq_int : ℤ → ℤ → Bool
beq_int (pos m) (pos n) = Tests.◌==◌ m n
beq_int (negsuc m) (negsuc n) = Tests.◌==◌ m n
beq_int _ _ = false

pub beq_int_iff : (a b : ℤ) → (beq_int a b ≡ true) ↔ (a ≡ b)
beq_int_iff (pos m) (pos n) = ground (arith, ==_iff m n)
beq_int_iff (negsuc m) (negsuc n) = ground (arith, ==_iff m n)
beq_int_iff (pos m) (negsuc n) = ((λ h. absurd cc), (λ h. absurd cc))
beq_int_iff (negsuc m) (pos n) = ((λ h. absurd cc), (λ h. absurd cc))

instance abbrev pub int_eq : Eq ℤ
int_eq = record { beq = beq_int; beq_iff = beq_int_iff }

abbrev beq_list : List ℕ → List ℕ → Bool
beq_list [] [] = true
beq_list (a ∷ xs) (b ∷ ys) = Tests.◌==◌ a b && beq_list xs ys
beq_list _ _ = false

pub beq_list_iff : (xs ys : List ℕ) → (beq_list xs ys ≡ true) ↔ (xs ≡ ys)
beq_list_iff [] [] = ground arith
beq_list_iff (a ∷ xs) (b ∷ ys) = ground (arith, ==_iff a b, beq_list_iff xs ys)
beq_list_iff [] (b ∷ ys) = ((λ h. absurd cc), (λ h. absurd cc))
beq_list_iff (a ∷ xs) [] = ((λ h. absurd cc), (λ h. absurd cc))

instance abbrev pub bytes_eq : Eq (List ℕ)
bytes_eq = record { beq = beq_list; beq_iff = beq_list_iff }

instance abbrev pub string_eq : Eq String
string_eq = record { beq = str_eq; beq_iff = eq_iff }

-- lists of a type with equality
abbrev beq_items : {A : Type 0} → (A → A → Bool) → List A → List A → Bool
beq_items beq [] [] = true
beq_items beq (a ∷ xs) (b ∷ ys) = beq a b && beq_items beq xs ys
beq_items beq _ _ = false

pub beq_items_iff :
    {A : Type 0} (e : Eq A) (xs ys : List A) → (beq_items e.beq xs ys ≡ true) ↔ (xs ≡ ys)
beq_items_iff e [] [] = ground arith
beq_items_iff e (a ∷ xs) (b ∷ ys) = ground (arith, e.beq_iff a b, beq_items_iff e xs ys)
beq_items_iff e [] (b ∷ ys) = ((λ h. absurd cc), (λ h. absurd cc))
beq_items_iff e (a ∷ xs) [] = ((λ h. absurd cc), (λ h. absurd cc))

instance abbrev pub texts_eq : Eq (List String)
texts_eq = record { beq = beq_items string_eq.beq; beq_iff = beq_items_iff string_eq }

abbrev pub Map : Type 0 → Type 0 → Type 0
Map K V = List (K × V)

module _ {K : Type 0} {V : Type 0} ⦃e : Eq K⦄ where
  -- d.get(key)
  abbrev pub lookup : K → Map K V → Option V
  lookup k [] = none
  lookup k ((j, v) ∷ d) = if e.beq j k then some v else lookup k d

  -- key in d
  abbrev pub has_key : K → Map K V → Bool
  has_key k [] = false
  has_key k ((j, v) ∷ d) = e.beq j k || has_key k d

  -- d[key] = value
  abbrev pub insert : K → V → Map K V → Map K V
  insert k v [] = (k, v) ∷ []
  insert k v ((j, w) ∷ d) =
      let rest = insert k v d in if e.beq j k then (j, v) ∷ d else (j, w) ∷ rest

  -- no key twice
  abbrev pub IsMap : Map K V → Type 0
  IsMap [] = Unit {0}
  IsMap ((k, v) ∷ d) = (has_key k d ≡ false) × IsMap d

module _ {K : Type 0} {V : Type 0} ⦃e : Eq K⦄ where
  pub lookup-insert_self : (k : K) (v : V) (d : Map K V) → lookup k (insert k v d) ≡ some v
  lookup-insert_self k v [] = rw ((e.beq_iff k k).1 refl)
  lookup-insert_self k v ((j, w) ∷ d) = elim (Bool-cases (e.beq j k)) [
    | inl same ↦ rw (same, same)
    | inr other ↦ rw (other, other) (lookup-insert_self k v d)
  ]

  pub lookup-insert_ne :
      (k j : K) (v : V) (d : Map K V) → e.beq k j ≡ false → lookup j (insert k v d) ≡ lookup j d
  lookup-insert_ne k j v [] ne = rw ne
  lookup-insert_ne k j v ((i, w) ∷ d) ne = elim (Bool-cases (e.beq i k)) [
    | inl same ↦
        let e1 : e.beq i j ≡ false = ap (λ x. e.beq x j) ((e.beq_iff i k).0 same) ∙ ne in
        rw (same, e1)
    | inr other ↦ rw other (elim (Bool-cases (e.beq i j)) [
      | inl found ↦ rw found refl
      | inr missing ↦ rw missing (lookup-insert_ne k j v d ne)
    ])
  ]

  pub has_key-insert :
      (k j : K) (v : V) (d : Map K V) → has_key j (insert k v d) ≡ (has_key j d || e.beq k j)
  has_key-insert k j v [] = elim (Bool-cases (e.beq k j)) [ inl q ↦ rw q | inr q ↦ rw q ]
  has_key-insert k j v ((i, w) ∷ d) = elim (Bool-cases (e.beq i k)) [
    | inl same ↦
        let e1 : e.beq i j ≡ e.beq k j = ap (λ x. e.beq x j) ((e.beq_iff i k).0 same) in
        rw (same, e1) (grind arith)
    | inr other ↦ rw (other, has_key-insert k j v d) (grind arith)
  ]

  pub insert-IsMap : (k : K) (v : V) (d : Map K V) → IsMap d → IsMap (insert k v d)
  insert-IsMap k v [] h = (refl, tt)
  insert-IsMap k v ((j, w) ∷ d) h = elim (Bool-cases (e.beq j k)) [
    | inl same ↦ rw same h
    | inr other ↦
        rw other (rw (has_key-insert k j v d, h.0) (beq_sym j k other), insert-IsMap k v d h.1)
  ]

  pub lookup-none : (k : K) (d : Map K V) → has_key k d ≡ false → lookup k d ≡ none
  lookup-none k [] h = refl
  lookup-none k ((j, v) ∷ d) h = elim (Bool-cases (e.beq j k)) [
    | inl same ↦ absurd (let e1 : (true || has_key k d) ≡ false = rw same at h in cc)
    | inr other ↦ rw other (lookup-none k d (rw other at h))
  ]

  -- a key that the dictionary has not differs from one that it has
  pub beq-fresh :
      (k j : K) (d : Map K V) {v : V}
      → has_key k d ≡ false
      → lookup j d ≡ some v
      → e.beq k j ≡ false
  beq-fresh k j d {v = v} new found = elim (Bool-cases (e.beq k j)) [
    | inl same ↦
        let here : lookup k d ≡ some v = ap (λ x. lookup x d) ((e.beq_iff k j).0 same) ∙ found in
        let gone = lookup-none k d new in absurd cc
    | inr other ↦ other
  ]

module _ {K : Type 0} {V : Type 0} ⦃e : Eq K⦄ where
  -- d.pop(key, None); a dictionary has a key at most once
  abbrev pub erase : K → Map K V → Map K V
  erase k [] = []
  erase k ((j, w) ∷ d) = let rest = erase k d in if e.beq j k then rest else (j, w) ∷ rest

module _ {K : Type 0} {V : Type 0} ⦃e : Eq K⦄ where
  pub lookup-erase_self : (k : K) (d : Map K V) → lookup k (erase k d) ≡ none
  lookup-erase_self k [] = refl
  lookup-erase_self k ((j, w) ∷ d) = elim (Bool-cases (e.beq j k)) [
    | inl same ↦ rw same (lookup-erase_self k d)
    | inr other ↦ rw (other, other) (lookup-erase_self k d)
  ]

  pub lookup-erase_ne :
      (k j : K) (d : Map K V) → e.beq k j ≡ false → lookup j (erase k d) ≡ lookup j d
  lookup-erase_ne k j [] ne = refl
  lookup-erase_ne k j ((i, w) ∷ d) ne = elim (Bool-cases (e.beq i k)) [
    | inl same ↦
        let e1 : e.beq i j ≡ false = ap (λ x. e.beq x j) ((e.beq_iff i k).0 same) ∙ ne in
        rw (same, e1) (lookup-erase_ne k j d ne)
    | inr other ↦ rw other (elim (Bool-cases (e.beq i j)) [
      | inl found ↦ rw found refl
      | inr missing ↦ rw missing (lookup-erase_ne k j d ne)
    ])
  ]

  -- what is found after keys were erased was there before
  pub lookup-erase-some :
      (k j : K) (d : Map K V) {v : V}
      → lookup j (erase k d) ≡ some v
      → (e.beq k j ≡ false) × (lookup j d ≡ some v)
  lookup-erase-some k j d {v = v} q = elim (Bool-cases (e.beq k j)) [
    | inl same ↦
        let gone : lookup j (erase k d) ≡ none =
          rw (← (e.beq_iff k j).0 same) (lookup-erase_self k d) in
        absurd cc
    | inr other ↦ (other, sym (lookup-erase_ne k j d other) ∙ q)
  ]
