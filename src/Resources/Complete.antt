-- ===== src/Resources/Complete.antt =====
-- ResourceFork.parse loses no reference of the map.
use cwhost.Base.{
  ℕ, zero, suc, ◌+◌, ◌*◌, ◌≤◌, ◌<◌, ◌≡◌, ◌∙◌, ◌||◌, some, [], length, ltb, arith, Bool-cases, inl,
  inr, false, sym, ap,
}
use cwhost.Base.Int.{ℤ}
use cwhost.Base.Result.{Result, ok, >>=-eq-ok}
use cwhost.Base.Bytes.{Bytes, slice}
use cwhost.Base.Map.{
  Map, lookup, has_key, insert, beq-fresh, lookup-insert_self, lookup-insert_ne, int_eq, bytes_eq,
}
use cwhost.Resources.{
  half, or_empty, typed_of, Resources, ResourceFork, parse_map, payload_of, resource_at,
  read_references, read_types,
}
use cwhost.Resources.Sound.{passed}

ok_injective : {E A : Type 0} {a b : A} (r : Result E A) → r ≡ ok a → r ≡ ok b → a ≡ b
ok_injective r p q = cc

module _ (bytes : Bytes) (data_offset data_end type_start map_end : ℕ) where
  -- `out` has every resource that `typed` has
  abbrev Extends : Map ℤ Bytes → Map ℤ Bytes → Type 0
  Extends typed out =
      (id : ℤ) (payload : Bytes) → lookup id typed ≡ some payload → lookup id out ≡ some payload

  read_references-Extends :
      (rounds index : ℕ) (ty : Bytes) (start : ℕ) (typed : Map ℤ Bytes) {out : Map ℤ Bytes}
      → read_references bytes data_offset data_end type_start map_end rounds index ty start typed
        ≡ ok out
      → Extends typed out
  unfolding read_references
  read_references-Extends zero index ty start typed {out = out} q id payload h =
      let e : typed ≡ out = cc in rw (← e) h
  read_references-Extends (suc rounds) index ty start typed q id payload h =
      let (r, q0, q1) =
        >>=-eq-ok
          (resource_at bytes data_offset data_end type_start map_end ty (start + index * 12)) _ q in
      let (new, q2) = passed (has_key r.0 typed) _ _ q1 in
      read_references-Extends rounds (index + 1) ty start _ q2 id payload
        (lookup-insert_ne r.0 id r.1 typed (beq-fresh r.0 id typed new h) ∙ h)

  -- the resource of a reference is in the dictionary under its id
  abbrev pub Kept : Bytes → ℕ → Map ℤ Bytes → Type 0
  Kept ty ref out =
      (id : ℤ) × (payload : Bytes) × (resource_at bytes data_offset data_end type_start map_end ty
          ref
        ≡ ok (id, payload))
      × (lookup id out ≡ some payload)

  read_references-Kept :
      (rounds index : ℕ) (ty : Bytes) (start : ℕ) (typed : Map ℤ Bytes) {out : Map ℤ Bytes}
      → read_references bytes data_offset data_end type_start map_end rounds index ty start typed
        ≡ ok out
      → (j : ℕ) → j < rounds
      → Kept ty (start + (index + j) * 12) out
  unfolding read_references
  read_references-Kept zero index ty start typed q j less = absurd (omega arith)
  read_references-Kept (suc rounds) index ty start typed q zero less =
      let (r, q0, q1) =
        >>=-eq-ok
          (resource_at bytes data_offset data_end type_start map_end ty (start + index * 12)) _ q in
      let (new, q2) = passed (has_key r.0 typed) _ _ q1 in
      let same : index + 0 ≡ index = omega arith in
      rw same (
        r.0,
        r.1,
        q0,
        read_references-Extends rounds (index + 1) ty start _ q2 r.0 r.1
            (lookup-insert_self r.0 r.1 typed),
      )
  read_references-Kept (suc rounds) index ty start typed q (suc j) less =
      let (r, q0, q1) =
        >>=-eq-ok
          (resource_at bytes data_offset data_end type_start map_end ty (start + index * 12)) _ q in
      let (new, q2) = passed (has_key r.0 typed) _ _ q1 in
      let same : index + suc j ≡ index + 1 + j = omega arith in
      rw same (read_references-Kept rounds (index + 1) ty start _ q2 j (omega arith))

  typed_of-insert_ne :
      (ty other : Bytes) (typed : Map ℤ Bytes) (resources : Resources)
      → bytes_eq.beq ty other ≡ false
      → typed_of other (insert ty typed resources) ≡ typed_of other resources
  typed_of-insert_ne ty other typed resources ne =
      ap or_empty (lookup-insert_ne ty other typed resources ne)

  typed_of-insert_self :
      (ty : Bytes) (typed : Map ℤ Bytes) (resources : Resources)
      → typed_of ty (insert ty typed resources) ≡ typed
  typed_of-insert_self ty typed resources = ap or_empty (lookup-insert_self ty typed resources)

  insert-Extends :
      (ty other : Bytes) (typed : Map ℤ Bytes) (resources : Resources)
      → Extends (typed_of ty resources) typed
      → Extends (typed_of other resources) (typed_of other (insert ty typed resources))
  insert-Extends ty other typed resources more id payload h =
      elim (Bool-cases (bytes_eq.beq ty other)) [
        | inl same ↦
            let e : ty ≡ other = (bytes_eq.beq_iff ty other).0 same in
            rw (← e, typed_of-insert_self ty typed resources) (more id payload (rw (← e) at h))
        | inr new ↦ rw (typed_of-insert_ne ty other typed resources new) h
      ]

  read_types-Extends :
      (rounds index : ℕ) (resources : Resources) {out : Resources}
      → read_types bytes data_offset data_end type_start map_end rounds index resources ≡ ok out
      → (other : Bytes) → Extends (typed_of other resources) (typed_of other out)
  unfolding read_types
  read_types-Extends zero index resources {out = out} q other id payload h =
      let e : resources ≡ out = cc in rw (← e) h
  read_types-Extends (suc rounds) index resources q other id payload h =
      let entry = type_start + 2 + 8 * index in
      let ty = slice bytes entry (entry + 4) in
      let (count, q0, q1) = >>=-eq-ok (half bytes (entry + 4)) _ q in
      let (offset, q2, q3) = >>=-eq-ok (half bytes (entry + 6)) _ q1 in
      let (inside, q4) =
        passed
          (ltb (type_start + offset) type_start
            || ltb map_end (type_start + offset + 12 * (count + 1)))
          _ _ q3 in
      let (typed, q5, q6) =
        >>=-eq-ok
          (read_references bytes data_offset data_end type_start map_end (count + 1) 0 ty
            (type_start + offset) (typed_of ty resources))
          _ q4 in
      read_types-Extends rounds (index + 1) (insert ty typed resources) q6 other id payload (
        insert-Extends ty other typed resources
          (read_references-Extends (count + 1) 0 ty (type_start + offset) _ q5) id payload h)

  -- the place of the type list's entry `i`
  abbrev pub entry_at : ℕ → ℕ
  entry_at i = type_start + 2 + 8 * i

  -- the name of the type at entry `i`
  abbrev pub type_at : ℕ → Bytes
  type_at i = slice bytes (entry_at i) (entry_at i + 4)

  read_types-Kept :
      (rounds index : ℕ) (resources : Resources) {out : Resources}
      → read_types bytes data_offset data_end type_start map_end rounds index resources ≡ ok out
      → (k i : ℕ) → i ≡ index + k
      → k < rounds
      → (count offset : ℕ) → half bytes (entry_at i + 4) ≡ ok count
      → half bytes (entry_at i + 6) ≡ ok offset
      → (j : ℕ) → j ≤ count
      → Kept (type_at i) (type_start + offset + j * 12) (typed_of (type_at i) out)
  unfolding read_types
  read_types-Kept zero index resources q k i place less count offset at_count at_offset j few =
      absurd (omega arith)
  read_types-Kept (suc rounds) index resources q zero i place less count offset at_count at_offset j
        few =
      let here : i ≡ index = omega arith in
      let ty = type_at index in
      let (count1, q0, q1) = >>=-eq-ok (half bytes (entry_at index + 4)) _ q in
      let (offset1, q2, q3) = >>=-eq-ok (half bytes (entry_at index + 6)) _ q1 in
      let (inside, q4) =
        passed
          (ltb (type_start + offset1) type_start
            || ltb map_end (type_start + offset1 + 12 * (count1 + 1)))
          _ _ q3 in
      let (typed, q5, q6) =
        >>=-eq-ok
          (read_references bytes data_offset data_end type_start map_end (count1 + 1) 0 ty
            (type_start + offset1) (typed_of ty resources))
          _ q4 in
      let same_count : count ≡ count1 =
        ok_injective (half bytes (entry_at index + 4))
          (ap (λ x. half bytes (entry_at x + 4)) (sym here) ∙ at_count) q0 in
      let same_offset : offset ≡ offset1 =
        ok_injective (half bytes (entry_at index + 6))
          (ap (λ x. half bytes (entry_at x + 6)) (sym here) ∙ at_offset) q2 in
      let (id, payload, read, found) =
        read_references-Kept (count1 + 1) 0 ty (type_start + offset1) _ q5 j (omega arith) in
      let shift : 0 + j ≡ j = omega arith in
      rw (here, same_offset)
        (
          id,
          payload,
          rw shift at read,
          read_types-Extends rounds (index + 1) (insert ty typed resources) q6 ty id payload
              (rw (typed_of-insert_self ty typed resources) found),
        )
  read_types-Kept (suc rounds) index resources q (suc k) i place less count offset at_count
        at_offset j few =
      let ty = type_at index in
      let (count1, q0, q1) = >>=-eq-ok (half bytes (entry_at index + 4)) _ q in
      let (offset1, q2, q3) = >>=-eq-ok (half bytes (entry_at index + 6)) _ q1 in
      let (inside, q4) =
        passed
          (ltb (type_start + offset1) type_start
            || ltb map_end (type_start + offset1 + 12 * (count1 + 1)))
          _ _ q3 in
      let (typed, q5, q6) =
        >>=-eq-ok
          (read_references bytes data_offset data_end type_start map_end (count1 + 1) 0 ty
            (type_start + offset1) (typed_of ty resources))
          _ q4 in
      read_types-Kept rounds (index + 1) (insert ty typed resources) q6 k i (omega arith)
        (omega arith) count offset at_count at_offset j few

-- Where `parse` accepts the map at `map_offset`, every reference of every entry of its type list is
-- kept: the resource that the `j`-th reference of entry `i` describes is in the fork, under that
-- entry's type and the reference's id, and with its payload.
pub parse_map-keeps_references :
    (bytes : Bytes) (data_offset map_offset data_length map_length : ℕ) {fork : ResourceFork}
    → parse_map bytes data_offset map_offset data_length map_length ≡ ok fork
    → (list types : ℕ) → half bytes (map_offset + 24) ≡ ok list
    → half bytes (map_offset + list) ≡ ok types
    → (i : ℕ) → i ≤ types
    → (count offset : ℕ) → half bytes (map_offset + list + 2 + 8 * i + 4) ≡ ok count
    → half bytes (map_offset + list + 2 + 8 * i + 6) ≡ ok offset
    → (j : ℕ) → j ≤ count
    → let ty = slice bytes (map_offset + list + 2 + 8 * i) (map_offset + list + 2 + 8 * i + 4) in
      (id : ℤ) × (payload : Bytes) × (resource_at bytes data_offset
          (data_offset + data_length)
          (map_offset + list)
          (map_offset + map_length)
          ty
          (map_offset + list + offset + j * 12)
        ≡ ok (id, payload))
      × (payload_of ty id fork ≡ some payload)
unfolding parse_map
parse_map-keeps_references bytes a b c d {fork = fork} q list types at_list at_types i in_list count
      offset at_count at_offset j few =
    let (inside, q0) = passed (ltb (length bytes) (a + c) || ltb (length bytes) (b + d)) _ _ q in
    let (long, q1) = passed (ltb d 30) _ _ q0 in
    let (list1, q2, q3) = >>=-eq-ok (half bytes (b + 24)) _ q1 in
    let (names, q4, q5) = >>=-eq-ok (half bytes (b + 26)) _ q3 in
    let (lists, q6) = passed (ltb (b + d) (b + list1 + 2) || ltb (b + d) (b + names)) _ _ q5 in
    let (types1, q7, q8) = >>=-eq-ok (half bytes (b + list1)) _ q6 in
    let (room, q9) = passed (ltb (b + d) (b + list1 + 2 + 8 * (types1 + 1))) _ _ q8 in
    let (found, q10, q11) =
      >>=-eq-ok (read_types bytes a (a + c) (b + list1) (b + d) (types1 + 1) 0 []) _ q9 in
    let same_list : list ≡ list1 = ok_injective (half bytes (b + 24)) at_list q2 in
    let same_types : types ≡ types1 =
      ok_injective (half bytes (b + list1))
        (ap (λ x. half bytes (b + x)) (sym same_list) ∙ at_types) q7 in
    let e : fork ≡ record { data_bytes = bytes; resources = found } = cc in
    rw (e, same_list)
      (read_types-Kept bytes a (a + c) (b + list1) (b + d) (types1 + 1) 0 [] q10 i i (omega arith)
        (omega arith) count offset (rw same_list at at_count) (rw same_list at at_offset) j few)
