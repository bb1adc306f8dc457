-- ===== src/Base/Bytes.antt =====
-- Byte strings as lists of numbers below 256: big-endian fields, slices and `struct`'s reads.
use Prim.Native.Nat.{ℕ, zero, suc, ◌+◌, ◌-◌, ◌*◌, ◌/◌, ◌%◌, ◌≤◌, ◌<◌}
use mathlib.Core.Path.{◌≡◌, refl, ap}
use mathlib.Core.Option.{Option, none, some}
use mathlib.Core.List.{List, [], ◌∷◌, ◌++◌}
use native.Mathlib.Omega.{arith}
use cwhost.Base.Lists.{length, take, drop, length-drop}

abbrev pub Bytes : Type 0
Bytes = List ℕ

-- every element is a byte
abbrev pub IsBytes : Bytes → Type 0
IsBytes [] = Unit {0}
IsBytes (b ∷ bs) = (b < 256) × IsBytes bs

-- struct.pack(">H", n) and struct.pack(">I", n), for n in range
abbrev pub be16 : ℕ → Bytes
be16 n = n / 256 % 256 ∷ n % 256 ∷ []

abbrev pub be32 : ℕ → Bytes
be32 n = n / 16777216 % 256 ∷ n / 65536 % 256 ∷ n / 256 % 256 ∷ n % 256 ∷ []

-- int.from_bytes(raw, "big"), with the value of the bytes before
abbrev pub from_be : ℕ → Bytes → ℕ
from_be acc [] = acc
from_be acc (b ∷ bs) = from_be (acc * 256 + b) bs

abbrev pub head_u16 : Bytes → Option ℕ
head_u16 (a ∷ b ∷ _) = some (a * 256 + b)
head_u16 _ = none

abbrev pub head_u32 : Bytes → Option ℕ
head_u32 (a ∷ b ∷ c ∷ d ∷ _) = some (((a * 256 + b) * 256 + c) * 256 + d)
head_u32 _ = none

-- struct.unpack_from(">H", data, offset)[0], `none` where it raises struct.error
abbrev pub u16_at : Bytes → ℕ → Option ℕ
u16_at bs i = head_u16 (drop i bs)

abbrev pub u32_at : Bytes → ℕ → Option ℕ
u32_at bs i = head_u32 (drop i bs)

-- data[from : to]: out of range it is cut short
abbrev pub slice : Bytes → ℕ → ℕ → Bytes
slice bs i j = take (j - i) (drop i bs)

module _ {ℓ} {A : Type ℓ} where
  pub drop-append : (n : ℕ) (xs ys : List A) → length xs ≡ n → drop n (xs ++ ys) ≡ ys
  drop-append zero [] ys e = refl
  drop-append zero (x ∷ xs) ys e = absurd (omega arith)
  drop-append (suc n) [] ys e = absurd (omega arith)
  drop-append (suc n) (x ∷ xs) ys e = drop-append n xs ys (omega arith)

  pub take-append : (n : ℕ) (xs ys : List A) → length xs ≡ n → take n (xs ++ ys) ≡ xs
  take-append zero [] ys e = refl
  take-append zero (x ∷ xs) ys e = absurd (omega arith)
  take-append (suc n) [] ys e = absurd (omega arith)
  take-append (suc n) (x ∷ xs) ys e = ap (λ zs. x ∷ zs) (take-append n xs ys (omega arith))

pub be16_value : (n : ℕ) → n < 65536 → n / 256 % 256 * 256 + n % 256 ≡ n
be16_value n h = omega arith

pub be32_value :
    (n : ℕ)
    → n < 4294967296
    → ((n / 16777216 % 256 * 256 + n / 65536 % 256) * 256 + n / 256 % 256) * 256 + n % 256 ≡ n
be32_value n h = omega arith

module _ {ℓ} {A : Type ℓ} where
  pub drop-add : (m n : ℕ) (xs : List A) → drop (m + n) xs ≡ drop n (drop m xs)
  drop-add zero n xs = let e : 0 + n ≡ n = omega arith in rw e
  drop-add (suc m) zero [] = let e : suc m + 0 ≡ suc m = omega arith in rw e
  drop-add (suc m) (suc n) [] = let e : suc m + suc n ≡ suc (m + suc n) = omega arith in rw e
  drop-add (suc m) n (x ∷ xs) =
      let e : suc m + n ≡ suc (m + n) = omega arith in rw e (drop-add m n xs)

-- a field inside the bytes is read
pub head_u32-some : (bs : Bytes) → 4 ≤ length bs → (n : ℕ) × (head_u32 bs ≡ some n)
head_u32-some (a ∷ b ∷ c ∷ d ∷ bs) h = (((a * 256 + b) * 256 + c) * 256 + d, refl)
head_u32-some (a ∷ b ∷ c ∷ []) h = absurd (omega arith)
head_u32-some (a ∷ b ∷ []) h = absurd (omega arith)
head_u32-some (a ∷ []) h = absurd (omega arith)
head_u32-some [] h = absurd (omega arith)

pub head_u16-some : (bs : Bytes) → 2 ≤ length bs → (n : ℕ) × (head_u16 bs ≡ some n)
head_u16-some (a ∷ b ∷ bs) h = (a * 256 + b, refl)
head_u16-some (a ∷ []) h = absurd (omega arith)
head_u16-some [] h = absurd (omega arith)

pub u32_at-some : (bs : Bytes) (i : ℕ) → i + 4 ≤ length bs → (n : ℕ) × (u32_at bs i ≡ some n)
u32_at-some bs i h = head_u32-some (drop i bs) (omega (arith, length-drop {0} i bs))

pub u16_at-some : (bs : Bytes) (i : ℕ) → i + 2 ≤ length bs → (n : ℕ) × (u16_at bs i ≡ some n)
u16_at-some bs i h = head_u16-some (drop i bs) (omega (arith, length-drop {0} i bs))
