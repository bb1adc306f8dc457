-- ===== src/Panels/Layout.antt =====
-- panels.py: where the encoders put the settings.
use cwhost.Base.{
  ℕ, zero, suc, ◌+◌, ◌-◌, ◌≤◌, ◌<◌, ◌≡◌, ◌≢◌, ◌⊎◌, refl, ap, ◌∙◌, Bool, true, false, ◌&&◌, ◌||◌,
  not, some, List, [], ◌∷◌, ◌++◌, length, length-append, length-set, length-take, length-drop, take,
  drop, set, get_elem?, get_elem?-set_self, get_elem?-set_ne, ltb, leb, ◌==◌, arith, inl, inr,
}
use cwhost.Base.Int.{ℤ, pos, negsuc}
use cwhost.Base.Result.{ok, >>=-eq-ok}
use cwhost.Base.Bytes.{Bytes}
use cwhost.Panels.{byte, splice, put_settings, byte_list}

get_elem?-take : (n i : ℕ) (xs : Bytes) → i < n → get_elem? (take n xs) i ≡ get_elem? xs i
get_elem?-take zero i xs h = absurd (omega arith)
get_elem?-take (suc n) i [] h = refl
get_elem?-take (suc n) zero (x ∷ xs) h = refl
get_elem?-take (suc n) (suc i) (x ∷ xs) h = get_elem?-take n i xs (omega arith)

get_elem?-append_left :
    (i : ℕ) (xs ys : Bytes) → i < length xs → get_elem? (xs ++ ys) i ≡ get_elem? xs i
get_elem?-append_left i [] ys h = absurd (omega arith)
get_elem?-append_left zero (x ∷ xs) ys h = refl
get_elem?-append_left (suc i) (x ∷ xs) ys h = get_elem?-append_left i xs ys (omega arith)

get_elem?-append_right :
    (i : ℕ) (xs ys : Bytes) → get_elem? (xs ++ ys) (length xs + i) ≡ get_elem? ys i
get_elem?-append_right i [] ys = let e : 0 + i ≡ i = omega arith in rw e refl
get_elem?-append_right i (x ∷ xs) ys =
    let e : suc (length xs) + i ≡ suc (length xs + i) = omega arith in
    rw e (get_elem?-append_right i xs ys)

pub get_elem?-drop : (n i : ℕ) (xs : Bytes) → get_elem? (drop n xs) i ≡ get_elem? xs (n + i)
get_elem?-drop zero i xs = let e : 0 + i ≡ i = omega arith in rw e refl
get_elem?-drop (suc n) i [] = refl
get_elem?-drop (suc n) i (x ∷ xs) =
    let e : suc n + i ≡ suc (n + i) = omega arith in rw e (get_elem?-drop n i xs)

-- a slice assignment of as many bytes as it replaces
pub length-splice :
    (start : ℕ) (raw target : Bytes)
    → start + length raw ≤ length target
    → length (splice start raw target) ≡ length target
length-splice start raw target h = omega (
  arith,
  length-append {0} (take start target) (raw ++ drop (start + length raw) target),
  length-append {0} raw (drop (start + length raw) target),
  length-take {0} start target,
  length-drop {0} (start + length raw) target,
)

pub get_elem?-splice :
    (start i : ℕ) (raw target : Bytes)
    → start + length raw ≤ length target
    → (i < start) ⊎ (start + length raw ≤ i)
    → get_elem? (splice start raw target) i ≡ get_elem? target i
get_elem?-splice start i raw target h (inl below) =
    get_elem?-append_left i (take start target) (raw ++ drop (start + length raw) target)
      (omega (arith, length-take {0} start target))
    ∙ get_elem?-take start i target below
get_elem?-splice start i raw target h (inr above) =
    let rest = drop (start + length raw) target in
    let k = i - (start + length raw) in
    let e : i ≡ length (take start target) + (length raw + k) =
      omega (arith, length-take {0} start target) in
    let e' : start + length raw + k ≡ i = omega arith in
    ap (get_elem? (splice start raw target)) e
    ∙ get_elem?-append_right (length raw + k) (take start target) (raw ++ rest)
    ∙ get_elem?-append_right k raw rest
    ∙ get_elem?-drop (start + length raw) k target
    ∙ ap (get_elem? target) e'

pub take-set : (i v : ℕ) (xs : Bytes) → 2 ≤ i → take 2 (set xs i v) ≡ take 2 xs
take-set i v [] h = refl
take-set zero v (x ∷ xs) h = absurd (omega arith)
take-set (suc zero) v (x ∷ xs) h = absurd (omega arith)
take-set (suc (suc i)) v (x ∷ []) h = refl
take-set (suc (suc i)) v (x ∷ y ∷ xs) h = refl

pub byte-eq : (z : ℤ) {v : ℕ} → byte z ≡ ok v → z ≡ pos v
unfolding byte
byte-eq (pos n) e = ground arith
byte-eq (negsuc n) e = cc

module _ {S : Type 0} (offset : S → ℕ) where
  -- each setting of the list is an integer of a byte, and stands at its offset
  abbrev pub Stored : List S → (S → ℤ) → Bytes → Type 0
  Stored [] settings out = Unit {0}
  Stored (s ∷ rest) settings out =
      ((v : ℕ) × (settings s ≡ pos v) × (get_elem? out (offset s) ≡ some v))
      × Stored rest settings out

  abbrev pub avoids : ℕ → List S → Bool
  avoids i [] = true
  avoids i (s ∷ rest) = not (offset s == i) && avoids i rest

  -- no two settings share a byte, and all lie below `n`
  abbrev pub apart : ℕ → List S → Bool
  apart n [] = true
  apart n (s ∷ rest) = ltb (offset s) n && (avoids (offset s) rest && apart n rest)

  -- all settings lie outside of `n` bytes from `start` on
  abbrev pub clear_of : ℕ → ℕ → List S → Bool
  clear_of start n [] = true
  clear_of start n (s ∷ rest) =
      (ltb (offset s) start || leb (start + n) (offset s)) && clear_of start n rest

  pub length-put_settings :
      (ss : List S) (settings : S → ℤ) (target : Bytes) {out : Bytes}
      → put_settings offset ss settings target ≡ ok out
      → length out ≡ length target
  length-put_settings [] settings target {out} e = let same : out ≡ target = cc in ap length same
  length-put_settings (s ∷ rest) settings target e =
      let (v, _, e1) = >>=-eq-ok (byte (settings s)) _ e in
      length-put_settings rest settings (set target (offset s) v) e1
      ∙ length-set target (offset s) v

  put_settings-keeps :
      (i : ℕ) (ss : List S) (settings : S → ℤ) (target : Bytes) {out : Bytes}
      → avoids i ss ≡ true
      → put_settings offset ss settings target ≡ ok out
      → get_elem? out i ≡ get_elem? target i
  put_settings-keeps i [] settings target {out} a e =
      let same : out ≡ target = cc in ap (λ xs. get_elem? xs i) same
  put_settings-keeps i (s ∷ rest) settings target a e =
      let (v, _, e1) = >>=-eq-ok (byte (settings s)) _ e in
      put_settings-keeps i rest settings (set target (offset s) v) (ground (arith, a)) e1
      ∙ get_elem?-set_ne target v (λ q. ground (arith, a, q))

  -- all settings lie behind the two bytes of the version
  abbrev pub all_above : List S → Bool
  all_above [] = true
  all_above (s ∷ rest) = leb 2 (offset s) && all_above rest

  pub take-put_settings :
      (ss : List S) (settings : S → ℤ) (target : Bytes) {out : Bytes}
      → all_above ss ≡ true
      → put_settings offset ss settings target ≡ ok out
      → take 2 out ≡ take 2 target
  take-put_settings [] settings target {out} a e = let same : out ≡ target = cc in ap (take 2) same
  take-put_settings (s ∷ rest) settings target a e =
      let (v, _, e1) = >>=-eq-ok (byte (settings s)) _ e in
      take-put_settings rest settings (set target (offset s) v) (ground (arith, a)) e1
      ∙ take-set (offset s) v target (ground (arith, a))

  pub put_settings-Stored :
      (ss : List S) (settings : S → ℤ) (target : Bytes) {out : Bytes}
      → apart (length target) ss ≡ true
      → put_settings offset ss settings target ≡ ok out
      → Stored ss settings out
  put_settings-Stored [] settings target a e = tt
  put_settings-Stored (s ∷ rest) settings target {out} a e =
      let (v, e0, e1) = >>=-eq-ok (byte (settings s)) _ e in
      let inside : offset s < length target = ground (arith, a) in
      let later : apart (length target) rest ≡ true = ground (arith, a) in
      (
        (
          v,
          byte-eq (settings s) e0,
          put_settings-keeps (offset s) rest settings (set target (offset s) v) (ground (arith, a))
                e1
              ∙ get_elem?-set_self target (offset s) v inside,
        ),
        put_settings-Stored rest settings (set target (offset s) v)
            (ap (λ n. apart n rest) (length-set target (offset s) v) ∙ later) e1,
      )

  pub Stored-splice :
      (ss : List S) (settings : S → ℤ) (start : ℕ) (raw target : Bytes)
      → start + length raw ≤ length target
      → clear_of start (length raw) ss ≡ true
      → Stored ss settings target
      → Stored ss settings (splice start raw target)
  Stored-splice [] settings start raw target h c st = tt
  Stored-splice (s ∷ rest) settings start raw target h c ((v, e, g), st) =
      let out : (offset s < start) ⊎ (start + length raw ≤ offset s) = ground (arith, c) in
      (
        (v, e, get_elem?-splice start (offset s) raw target h out ∙ g),
        Stored-splice rest settings start raw target h (ground (arith, c)) st,
      )

  pub Stored-set :
      (ss : List S) (settings : S → ℤ) (i v : ℕ) (target : Bytes)
      → avoids i ss ≡ true
      → Stored ss settings target
      → Stored ss settings (set target i v)
  Stored-set [] settings i v target a st = tt
  Stored-set (s ∷ rest) settings i v target a ((w, e, g), st) =
      let ne : i ≢ offset s = λ q. ground (arith, a, q) in
      (
        (w, e, get_elem?-set_ne target v ne ∙ g),
        Stored-set rest settings i v target (ground (arith, a)) st,
      )

-- 0 and 1, the values of a flag
abbrev pub is_bit : ℤ → Bool
is_bit (pos zero) = true
is_bit (pos (suc zero)) = true
is_bit _ = false

byte-bit : (z : ℤ) → is_bit z ≡ true → (v : ℕ) × (byte z ≡ ok v)
unfolding byte
byte-bit (pos zero) h = (0, refl)
byte-bit (pos (suc zero)) h = (1, refl)
byte-bit (pos (suc (suc n))) h = cc
byte-bit (negsuc n) h = cc

module _ {S : Type 0} (settings : S → ℤ) (bits : (s : S) → is_bit (settings s) ≡ true) where
  pub put_settings-ok :
      (offset : S → ℕ) (ss : List S) (target : Bytes)
      → (out : Bytes) × (put_settings offset ss settings target ≡ ok out)
  put_settings-ok offset [] target = (target, refl)
  put_settings-ok offset (s ∷ rest) target =
      let (v, e) = byte-bit (settings s) (bits s) in
      let (out, e') = put_settings-ok offset rest (set target (offset s) v) in (out, rw e e')

  pub byte_list-ok : (ss : List S) → (out : Bytes) × (byte_list ss settings ≡ ok out)
  byte_list-ok [] = ([], refl)
  byte_list-ok (s ∷ rest) =
      let (v, e) = byte-bit (settings s) (bits s) in
      let (out, e') = byte_list-ok rest in (v ∷ out, rw (e, e') refl)
