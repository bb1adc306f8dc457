-- ===== src/Resources/Chain/Search.antt =====
-- ResourceChain.get: which of the open files a resource is taken from.
use cwhost.Base.{
  ℕ, suc, ◌+◌, ◌≡◌, ◌∙◌, true, Option, none, some, List, [], ◌∷◌, ◌++◌, take, ◌==◌, if◌then◌else◌,
  refl, sym, ap, arith, Bool-cases, Option-cases, inl, inr,
}
use cwhost.Base.Int.{ℤ}
use cwhost.Base.Result.{ok, ◌>>=◌, >>=-eq-ok}
use cwhost.Base.Bytes.{Bytes}
use cwhost.Base.Dict.{Dict, lookup, has_key, lookup-has_key}
use cwhost.Base.Text.{Tables}
use cwhost.Resources.{ResourceFork, TypeName, type_bytes, payload_of, get}
use cwhost.Resources.Chain.{
  Chain, index_of, reverse, check, first_payload, get_below, get_from_chain,
}
use cwhost.Resources.Chain.Order.{member}
use cwhost.Resources.Chain.Invariant.{IsChain}

-- the files of an order that are opened no later than `r`
abbrev pub upto : ℕ → List ℕ → List ℕ
upto r [] = []
upto r (x ∷ xs) = if x == r then x ∷ [] else x ∷ upto r xs

abbrev pub payload_in : Option ResourceFork → Bytes → ℤ → Option Bytes
payload_in none ty id = none
payload_in (some fork) ty id = payload_of ty id fork

-- a later payload takes the place of an earlier one
abbrev pub later_or : Option Bytes → Option Bytes → Option Bytes
later_or (some later) earlier = some later
later_or none earlier = earlier

-- the payload of the file that comes last in the order, among those that have the resource
abbrev pub newest : Bytes → ℤ → List ℕ → Dict ResourceFork → Option Bytes
newest ty id [] files = none
newest ty id (x ∷ xs) files = later_or (newest ty id xs files) (payload_in (lookup x files) ty id)

index_of-take :
    (r : ℕ) (xs : List ℕ)
    → member r xs ≡ true
    → (i : ℕ) × (index_of r xs ≡ some i) × (take (i + 1) xs ≡ upto r xs)
index_of-take r [] h = absurd cc
index_of-take r (x ∷ xs) h = elim (Bool-cases (x == r)) [
  | inl here ↦ rw here (0, refl, refl)
  | inr other ↦
      let (i, at, prefix) = index_of-take r xs (rw other at h) in
      let e : suc i + 1 ≡ suc (i + 1) = omega arith in
      rw (other, at) (suc i, refl, rw e (ap (λ ys. x ∷ ys) prefix))
]

member-upto : (r j : ℕ) (xs : List ℕ) → member j (upto r xs) ≡ true → member j xs ≡ true
member-upto r j [] h = cc
member-upto r j (x ∷ xs) h = ground (arith, member-upto r j xs)

module _ {Node : Type 0} (t : Tables) (name : TypeName) (id : ℤ) (c : Chain Node) {ty : Bytes}
    (named : type_bytes t name ≡ ok ty) where
  payload_at :
      (x : ℕ)
      → has_key x c.files ≡ true
      → (check x c >>= get t name id) ≡ ok (payload_in (lookup x c.files) ty id)
  payload_at x h = let (fork, at) = lookup-has_key x c.files h in rw (at, named) refl

  first_payload-append :
      (xs : List ℕ) (x : ℕ) {found : Option Bytes}
      → first_payload t name id xs c ≡ ok found
      → has_key x c.files ≡ true
      → first_payload t name id (xs ++ x ∷ []) c
        ≡ ok (later_or found (payload_in (lookup x c.files) ty id))
  first_payload-append [] x {found = found} q open_x =
      let none_yet : none ≡ found = cc in
      rw (payload_at x open_x, ← none_yet)
        (elim (Option-cases (payload_in (lookup x c.files) ty id)) [
          | inl missing ↦ rw missing refl
          | inr (p, has) ↦ rw has refl
        ])
  first_payload-append (y ∷ xs) x {found = found} q open_x =
      let (p, q0, q1) = >>=-eq-ok (check y c >>= get t name id) _ q in
      rw q0 (elim (Option-cases p) [
        | inl missing ↦ rw missing (first_payload-append xs x (rw missing at q1) open_x)
        | inr (f, has) ↦
            let e : ok (some f) ≡ ok found = rw has at q1 in
            let same : some f ≡ found = cc in rw (has, ← same) refl
      ])

  first_payload-newest :
      (xs : List ℕ)
      → ((x : ℕ) → member x xs ≡ true → has_key x c.files ≡ true)
      → first_payload t name id (reverse xs) c ≡ ok (newest ty id xs c.files)
  first_payload-newest [] all = refl
  first_payload-newest (x ∷ xs) all =
      first_payload-append (reverse xs) x (first_payload-newest xs (λ y h. all y (ground arith)))
        (all x (ground arith))

  -- On a chain that keeps its invariant, `get` of a valid type never raises: it returns the payload
  -- of the latest opened file that has the resource, among those opened no later than the current
  -- one.
  pub get_from_chain-newest :
      (r : ℕ)
      → IsChain c
      → c.current ≡ some r
      → get_from_chain t name id c ≡ ok (newest ty id (upto r c.order) c.files)
  unfolding get_from_chain
  get_from_chain-newest r h at =
      let here : member r c.order ≡ true = h.same_order r ∙ h.current_open r at in
      let (i, index, prefix) = index_of-take r c.order here in
      ap (λ current. get_below t name id current c) at
      ∙ rw (index, prefix)
          (first_payload-newest (upto r c.order)
            (λ x in_prefix. sym (h.same_order x) ∙ member-upto r x c.order in_prefix))
