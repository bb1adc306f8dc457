-- ===== src/Resources/Sound.antt =====
-- What ResourceFork.parse returns: distinct keys, and payloads that lie in the fork's data.
use cwhost.Base.{
  ℕ, zero, suc, ◌+◌, ◌-◌, ◌*◌, ◌≤◌, ◌≡◌, ◌∙◌, ◌||◌, some, [], length, drop, length-take,
  length-drop, ltb, arith, Bool, Bool-cases, Option-cases, inl, inr, true, false, refl, sym,
}
use cwhost.Base.Int.{ℤ}
use cwhost.Base.Result.{Result, ok, raise_if, ◌>>◌, >>=-eq-ok, or_raise-eq-ok}
use cwhost.Base.Bytes.{Bytes, u32_at, slice, from_be}
use cwhost.Base.Map.{
  Map, Eq, lookup, has_key, insert, IsMap, insert-IsMap, lookup-insert_self, lookup-insert_ne,
  int_eq, bytes_eq,
}
use cwhost.Resources.{
  ResourceError, half, word, signed_half, typed_of, Resources, ResourceFork, resource_at,
  read_references, read_types, parse_map, parse,
}

length-slice :
    (bytes : Bytes) (start n : ℕ)
    → start + n ≤ length bytes
    → length (slice bytes start (start + n)) ≡ n
length-slice bytes start n h =
    let e : start + n - start ≡ n = omega arith in
    rw e (omega (arith, length-take n (drop start bytes), length-drop start bytes))

-- `raise_if` that did not raise
pub passed :
    {A : Type 0} (test : Bool) (e : ResourceError) (rest : Result ResourceError A) {a : A}
    → (raise_if test e >> rest) ≡ ok a
    → (test ≡ false) × (rest ≡ ok a)
passed true e rest q = absurd cc
passed false e rest q = (refl, q)

-- The payload lies between two bounds of the fork's bytes, behind the 32-bit length that counts it.
pub record Located (bytes : Bytes) (low high : ℕ) (payload : Bytes) : Type 0 where
  pub position : ℕ
  pub not_below : low ≤ position
  pub not_above : position + 4 + length payload ≤ high
  pub counted : u32_at bytes position ≡ some (length payload)
  pub copied : payload ≡ slice bytes (position + 4) (position + 4 + length payload)

-- the resources of a type: no id twice, and every payload is located
pub record SoundType (bytes : Bytes) (low high : ℕ) (typed : Map ℤ Bytes) : Type 0 where
  pub distinct : IsMap typed
  pub located :
      (id : ℤ) (payload : Bytes) → lookup id typed ≡ some payload → Located bytes low high payload

pub record SoundResources (bytes : Bytes) (low high : ℕ) (resources : Resources) : Type 0 where
  pub distinct : IsMap resources
  pub sound :
      (ty : Bytes) (typed : Map ℤ Bytes)
      → lookup ty resources ≡ some typed
      → SoundType bytes low high typed

-- what holds of all values of a dictionary and of a new one holds after an insertion
insert-all :
    {K V : Type 0} ⦃e : Eq K⦄ (P : V → Type 0) (k : K) (v : V) (d : Map K V)
    → P v
    → ((j : K) (w : V) → lookup j d ≡ some w → P w)
    → (j : K) (w : V) → lookup j (insert k v d) ≡ some w
    → P w
insert-all ⦃e⦄ P k v d new old j w q = elim (Bool-cases (e.beq k j)) [
  | inl same ↦
      let here : lookup j (insert k v d) ≡ some v =
        rw (← (e.beq_iff k j).0 same) (lookup-insert_self k v d) in
      let e1 : v ≡ w = cc in rw (← e1) new
  | inr other ↦ old j w (sym (lookup-insert_ne k j v d other) ∙ q)
]

module _ (bytes : Bytes) (data_offset data_end type_start map_end : ℕ)
    (in_data : data_end ≤ length bytes) where
  resource_at-Located :
      (ty : Bytes) (ref : ℕ) {r : ℤ × Bytes}
      → resource_at bytes data_offset data_end type_start map_end ty ref ≡ ok r
      → Located bytes data_offset data_end r.1
  unfolding resource_at
  resource_at-Located ty ref {r = r} q =
      let (id, q0, q1) = >>=-eq-ok (half bytes ref) _ q in
      let p = data_offset + from_be 0 (slice bytes (ref + 5) (ref + 8)) in
      let (low, q2) = passed (ltb data_end (p + 4)) _ _ q1 in
      let (n, q3, q4) = >>=-eq-ok (word bytes p) _ q2 in
      let (high, q5) = passed (ltb data_end (p + 4 + n)) _ _ q4 in
      let size : length (slice bytes (p + 4) (p + 4 + n)) ≡ n =
        length-slice bytes (p + 4) n (ground arith) in
      let out : r ≡ (signed_half id, slice bytes (p + 4) (p + 4 + n)) = cc in
      rw out (record {
        position = p;
        not_below = omega arith;
        not_above = rw size (ground arith);
        counted = rw size (or_raise-eq-ok (u32_at bytes p) _ q3);
        copied = rw size refl;
      })

  read_references-SoundType :
      (rounds index : ℕ) (ty : Bytes) (start : ℕ) (typed : Map ℤ Bytes) {out : Map ℤ Bytes}
      → read_references bytes data_offset data_end type_start map_end rounds index ty start typed
        ≡ ok out
      → SoundType bytes data_offset data_end typed
      → SoundType bytes data_offset data_end out
  unfolding read_references
  read_references-SoundType zero index ty start typed {out = out} q s =
      let e : typed ≡ out = cc in rw (← e) s
  read_references-SoundType (suc rounds) index ty start typed q s =
      let (r, q0, q1) =
        >>=-eq-ok
          (resource_at bytes data_offset data_end type_start map_end ty (start + index * 12)) _ q in
      let (new, q2) = passed (has_key r.0 typed) _ _ q1 in
      read_references-SoundType rounds (index + 1) ty start _ q2 (record {
        distinct = insert-IsMap r.0 r.1 typed s.distinct;
        located =
            insert-all (Located bytes data_offset data_end) r.0 r.1 typed
              (resource_at-Located ty (start + index * 12) q0) s.located;
      })

  typed_of-SoundType :
      (ty : Bytes) (resources : Resources)
      → SoundResources bytes data_offset data_end resources
      → SoundType bytes data_offset data_end (typed_of ty resources)
  typed_of-SoundType ty resources s = elim (Option-cases (lookup ty resources)) [
    | inl missing ↦ rw missing (record { distinct = tt; located = λ id payload q. absurd cc })
    | inr (typed, found) ↦ rw found (s.sound ty typed found)
  ]

  read_types-SoundResources :
      (rounds index : ℕ) (resources : Resources) {out : Resources}
      → read_types bytes data_offset data_end type_start map_end rounds index resources ≡ ok out
      → SoundResources bytes data_offset data_end resources
      → SoundResources bytes data_offset data_end out
  unfolding read_types
  read_types-SoundResources zero index resources {out = out} q s =
      let e : resources ≡ out = cc in rw (← e) s
  read_types-SoundResources (suc rounds) index resources q s =
      let entry = type_start + 2 + 8 * index in
      let ty = slice bytes entry (entry + 4) in
      let (count, q0, q1) = >>=-eq-ok (half bytes (entry + 4)) _ q in
      let (offset, q2, q3) = >>=-eq-ok (half bytes (entry + 6)) _ q1 in
      let (inside, q4) =
        passed
          (ltb (type_start + offset) type_start
            || ltb map_end (type_start + offset + 12 * (count + 1)))
          _ _ q3 in
      let (typed, q5, q6) =
        >>=-eq-ok
          (read_references bytes data_offset data_end type_start map_end (count + 1) 0 ty
            (type_start + offset) (typed_of ty resources))
          _ q4 in
      read_types-SoundResources rounds (index + 1) (insert ty typed resources) q6 (record {
        distinct = insert-IsMap ty typed resources s.distinct;
        sound =
            insert-all (SoundType bytes data_offset data_end) ty typed resources
              (read_references-SoundType (count + 1) 0 ty (type_start + offset) _ q5
                (typed_of-SoundType ty resources s))
              s.sound;
      })

-- a fork of these bytes: the data's place and length stand in the header
pub record Parsed (bytes : Bytes) (fork : ResourceFork) : Type 0 where
  pub data_offset : ℕ
  pub data_length : ℕ
  pub offset_stored : u32_at bytes 0 ≡ some data_offset
  pub length_stored : u32_at bytes 8 ≡ some data_length
  pub in_bounds : data_offset + data_length ≤ length bytes
  pub kept : fork.data_bytes ≡ bytes
  pub resources : SoundResources bytes data_offset (data_offset + data_length) fork.resources

no_resources : (bytes : Bytes) (low high : ℕ) → SoundResources bytes low high []
no_resources bytes low high = record { distinct = tt; sound = λ ty typed h. absurd cc }

parse_map-Parsed :
    (bytes : Bytes) (a b c d : ℕ) {fork : ResourceFork}
    → u32_at bytes 0 ≡ some a
    → u32_at bytes 8 ≡ some c
    → parse_map bytes a b c d ≡ ok fork
    → Parsed bytes fork
unfolding parse_map
parse_map-Parsed bytes a b c d {fork = fork} at_0 at_8 q =
    let (inside, q0) = passed (ltb (length bytes) (a + c) || ltb (length bytes) (b + d)) _ _ q in
    let (long, q1) = passed (ltb d 30) _ _ q0 in
    let (types, q2, q3) = >>=-eq-ok (half bytes (b + 24)) _ q1 in
    let (names, q4, q5) = >>=-eq-ok (half bytes (b + 26)) _ q3 in
    let (lists, q6) = passed (ltb (b + d) (b + types + 2) || ltb (b + d) (b + names)) _ _ q5 in
    let (n, q7, q8) = >>=-eq-ok (half bytes (b + types)) _ q6 in
    let (room, q9) = passed (ltb (b + d) (b + types + 2 + 8 * (n + 1))) _ _ q8 in
    let (found, q10, q11) =
      >>=-eq-ok (read_types bytes a (a + c) (b + types) (b + d) (n + 1) 0 []) _ q9 in
    let e : fork ≡ record { data_bytes = bytes; resources = found } = cc in
    rw e (record {
      data_offset = a;
      data_length = c;
      offset_stored = at_0;
      length_stored = at_8;
      in_bounds = ground arith;
      kept = refl;
      resources =
          read_types-SoundResources bytes a (a + c) (b + types) (b + d) (ground arith) (n + 1) 0 []
            q10 (no_resources bytes a (a + c));
    })

-- The resources of a parsed fork: no type and no id of a type stands twice, and every payload is
-- the text of the fork's bytes behind a 32-bit length that counts it, inside the data area that the
-- header names, which lies inside the bytes.
pub parse-Parsed : (bytes : Bytes) {fork : ResourceFork} → parse bytes ≡ ok fork → Parsed bytes fork
unfolding parse
parse-Parsed bytes q =
    let (long, q0) = passed (ltb (length bytes) 16) _ _ q in
    let (a, q1, q2) = >>=-eq-ok (word bytes 0) _ q0 in
    let (b, q3, q4) = >>=-eq-ok (word bytes 4) _ q2 in
    let (c, q5, q6) = >>=-eq-ok (word bytes 8) _ q4 in
    let (d, q7, q8) = >>=-eq-ok (word bytes 12) _ q6 in
    parse_map-Parsed bytes a b c d (or_raise-eq-ok (u32_at bytes 0) _ q1)
      (or_raise-eq-ok (u32_at bytes 8) _ q5) q8
