-- ===== src/Pef/Pidata/Image.antt =====
-- The expansion of pattern-initialised data ends, and gives an image of the section's size.
use cwhost.Base.{
  ℕ, zero, suc, ◌+◌, ◌/◌, ◌%◌, ◌-◌, ◌≤◌, ◌<◌, ◌≡◌, ◌≢◌, refl, Option, none, some, List, [], ◌∷◌,
  ◌++◌, length, length-append, length-take, length-replicate, take, get_elem?, replicate, ltb, ◌==◌,
  arith, Bool-cases, inl, inr,
}
use cwhost.Base.Result.{Result, ok, err, or_raise, ◌>>=◌, >>=-eq-ok}
use cwhost.Base.Bytes.{Bytes}
use cwhost.Pef.Varint.{varint, varint-advances}
use cwhost.Pef.{PefError, out_of_fuel, index_error}
use cwhost.Pef.Container.{Section}
use cwhost.Pef.Pidata.{
  number, common_size, operation, round, expand, expansion, fit_image, image_of, section_image,
}

length-fit_image : (n : ℕ) (image : Bytes) → length (fit_image n image) ≡ n
unfolding fit_image
length-fit_image n image = omega (
  arith,
  length-append {0} (take n image) (replicate (n - length (take n image)) 0),
  length-take {0} n image,
  length-replicate {0} {A = ℕ} (n - length (take n image)) 0,
)

-- Where `section_image` succeeds, for a section of any kind, the image has the section's total size.
pub length-section_image :
    (container : Bytes) (sections : List Section) (index : ℕ) {s : Section} {image : Bytes}
    → get_elem? sections index ≡ some s
    → section_image container sections index ≡ ok image
    → length image ≡ s.total_size
unfolding section_image
length-section_image container sections index {s} {image} e h =
    let (t, e0, e1) = >>=-eq-ok (or_raise (get_elem? sections index) index_error) _ h in
    let (raw, e2, e3) = >>=-eq-ok (image_of container sections t) _ e1 in
    let same : s ≡ t = ground arith in
    let cut : fit_image t.total_size raw ≡ image = cc in
    rw (← cut) (rw same (length-fit_image t.total_size raw))

-- An instruction's outcome: it moves on from `i`, or raises an error that is no lack of fuel.
abbrev Moves : ℕ → Result PefError (ℕ × Bytes) → Type 0
Moves i (ok (j, _)) = i ≤ j
Moves i (err out_of_fuel) = ⊥
Moves i (err _) = Unit {0}

number_then :
    (packed : Bytes) (i l : ℕ) (f : ℕ × ℕ → Result PefError (ℕ × Bytes))
    → l ≤ i
    → ((v j : ℕ) → l ≤ j → Moves l (f (v, j)))
    → Moves l (number packed i >>= f)
number_then packed i l f b h = go (varint packed i) refl
  where
    go : (o : Option (ℕ × ℕ)) → varint packed i ≡ o → Moves l (number packed i >>= f)
    go none e = rw e tt
    go (some (v, j)) e = rw e (h v j (omega (arith, varint-advances packed i v j e)))

common_then :
    (count : ℕ) (packed : Bytes) (i : ℕ) (f : ℕ × ℕ → Result PefError (ℕ × Bytes))
    → ((v j : ℕ) → i ≤ j → Moves i (f (v, j)))
    → Moves i (common_size count packed i >>= f)
common_then zero packed i f h = number_then packed i i f (omega arith) h
common_then (suc n) packed i f h = h (suc n) i (omega arith)

operation-Moves : (op count : ℕ) (packed : Bytes) (i : ℕ) → Moves i (operation op count packed i)
unfolding operation
operation-Moves zero count packed i = omega arith
operation-Moves (suc zero) count packed i = omega arith
operation-Moves (suc (suc zero)) count packed i =
    number_then packed i i _ (omega arith) (λ v j h. omega arith)
operation-Moves (suc (suc (suc zero))) count packed i = common_then count packed i _ (λ c j h.
    number_then packed j i _ h (λ d k h'. number_then packed k i _ h' (λ r l h''. omega arith)))
operation-Moves (suc (suc (suc (suc zero)))) count packed i = common_then count packed i _ (λ c j h.
    number_then packed j i _ h (λ d k h'. number_then packed k i _ h' (λ r l h''. omega arith)))
operation-Moves (suc (suc (suc (suc (suc n))))) count packed i = omega arith

Moves-mono : (i j : ℕ) (r : Result PefError (ℕ × Bytes)) → i ≤ j → Moves j r → Moves i r
Moves-mono i j (ok (k, _)) h m = omega arith
Moves-mono i j (err out_of_fuel) h m = m
Moves-mono i j (err _) h m = tt

round-Moves : (byte : ℕ) (packed : Bytes) (i : ℕ) → Moves (i + 1) (round byte packed i)
unfolding round
round-Moves byte packed i = elim (Bool-cases (byte % 32 == 0)) [
  | inl long ↦ rw long (
      number_then packed (i + 1) (i + 1) _ (omega arith) (λ v j h.
        Moves-mono (i + 1) j (operation (byte / 32) v packed j) h
          (operation-Moves (byte / 32) v packed j)))
  | inr short ↦ rw short (operation-Moves (byte / 32) (byte % 32) packed (i + 1))
]

get_elem?-none {ℓ} : {A : Type ℓ} (xs : List A) (i : ℕ) → length xs ≤ i → get_elem? xs i ≡ none
get_elem?-none [] i h = refl
get_elem?-none (x ∷ xs) zero h = absurd (omega arith)
get_elem?-none (x ∷ xs) (suc i) h = get_elem?-none xs i (omega arith)

expand_next :
    (fuel : ℕ) (packed : Bytes) (unpacked_size i : ℕ) (output : Bytes)
    (r : Result PefError (ℕ × Bytes))
    → Moves (i + 1) r
    → ((j : ℕ) (bytes : Bytes)
        → i + 1 ≤ j
        → expand fuel packed unpacked_size j (output ++ bytes) ≢ err out_of_fuel)
    → (r >>= λ step. expand fuel packed unpacked_size step.0 (output ++ step.1)) ≢ err out_of_fuel
expand_next fuel packed unpacked_size i output (ok (j, bytes)) m h = h j bytes m
expand_next fuel packed unpacked_size i output (err out_of_fuel) m h = λ e. m
expand_next fuel packed unpacked_size i output (err _) m h = λ e. cc

expand_round :
    (fuel : ℕ) (packed : Bytes) (unpacked_size i : ℕ) (output : Bytes) (o : Option ℕ)
    → get_elem? packed i ≡ o
    → ((j : ℕ) (bytes : Bytes)
        → i + 1 ≤ j
        → i < length packed
        → expand fuel packed unpacked_size j (output ++ bytes) ≢ err out_of_fuel)
    → expand (suc fuel) packed unpacked_size i output ≢ err out_of_fuel
unfolding expand
expand_round fuel packed unpacked_size i output none e h = rw (e, expand) (λ q. cc)
expand_round fuel packed unpacked_size i output (some byte) e h =
    elim (Bool-cases (ltb (length output) unpacked_size)) [
      | inr full ↦ rw (e, expand) (rw full (λ q. cc))
      | inl room ↦ elim (Bool-cases (ltb i (length packed))) [
        | inl inside ↦
            rw (e, expand)
              (rw room (
                expand_next fuel packed unpacked_size i output (round byte packed i)
                  (round-Moves byte packed i) (λ j bytes l. h j bytes l (ground arith))))
        | inr outside ↦ absurd (ground (arith, get_elem?-none packed i))
      ]
    ]

expand-total :
    (fuel : ℕ) (packed : Bytes) (unpacked_size i : ℕ) (output : Bytes)
    → length packed < fuel + i
    → 0 < fuel
    → expand fuel packed unpacked_size i output ≢ err out_of_fuel
expand-total zero packed unpacked_size i output h p = absurd (omega arith)
expand-total (suc fuel) packed unpacked_size i output h p =
    expand_round fuel packed unpacked_size i output (get_elem? packed i) refl (λ j bytes l inside.
      expand-total fuel packed unpacked_size j (output ++ bytes) (omega arith) (omega arith))

-- What an expansion does, from the outcome of its loop.
expansion-Expands :
    (packed : Bytes) (unpacked_size total_size : ℕ)
    → (expansion packed unpacked_size total_size ≢ err out_of_fuel)
      × ((image : Bytes)
          → expansion packed unpacked_size total_size ≡ ok image
          → length image ≡ unpacked_size + (total_size - unpacked_size))
unfolding expansion
expansion-Expands packed unpacked_size total_size =
    go (expand (length packed + 1) packed unpacked_size 0 []) refl
      (expand-total (length packed + 1) packed unpacked_size 0 [] (omega arith) (omega arith))
  where
    go :
        (r : Result PefError Bytes)
        → expand (length packed + 1) packed unpacked_size 0 [] ≡ r
        → r ≢ err out_of_fuel
        → (expansion packed unpacked_size total_size ≢ err out_of_fuel)
          × ((image : Bytes)
              → expansion packed unpacked_size total_size ≡ ok image
              → length image ≡ unpacked_size + (total_size - unpacked_size))
    go (err x) e n = rw e (n, λ image q. cc)
    go (ok output) e n = rw e (
      ground arith,
      λ image q. ground (
        arith,
        length-append {0} output (replicate (total_size - length output) 0),
        length-replicate {0} {A = ℕ} (total_size - length output) 0,
      ),
    )

-- The expansion ends on every input: fuel for each packed byte and one round more is enough.
pub expansion-ne-out_of_fuel :
    (packed : Bytes) (unpacked_size total_size : ℕ)
    → expansion packed unpacked_size total_size ≢ err out_of_fuel
expansion-ne-out_of_fuel packed unpacked_size total_size =
    (expansion-Expands packed unpacked_size total_size).0

-- Where the expansion succeeds, its result has the section's total size, or the unpacked size where
-- that is larger.
pub length-expansion :
    (packed : Bytes) (unpacked_size total_size : ℕ) {image : Bytes}
    → expansion packed unpacked_size total_size ≡ ok image
    → length image ≡ unpacked_size + (total_size - unpacked_size)
length-expansion packed unpacked_size total_size {image} e =
    (expansion-Expands packed unpacked_size total_size).1 image e
