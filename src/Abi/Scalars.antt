-- ===== src/Abi/Scalars.antt =====
-- abi.py, Struct._scalar_encode and Struct._scalar_decode: one scalar as big-endian bytes.
use native.Mathlib.Nat.{pow-suc}
use cwhost.Base.{
  sym, ◌∙◌, ℕ, zero, suc, ◌+◌, ◌-◌, ◌*◌, ◌/◌, ◌%◌, ◌^◌, ◌<◌, ◌≡◌, ◌≢◌, refl, Bool, true, false, [],
  ◌∷◌, ◌++◌, arith, length, length-append, ltb, ◌==◌, if◌then◌else◌, Bool-cases, inl, inr, ap,
}
use cwhost.Base.Int.{ℤ, pos, negsuc}
use cwhost.Base.Result.{Result, ok, err}
use cwhost.Base.Bytes.{Bytes, from_be}
use cwhost.Abi.{Scalar, u8, s8, u16, s16, u32, s32, u64, s64, ptr, ostype, boolean, scalar_size}

-- `overflow` is the OverflowError of Python's `int.to_bytes`.
pub data AbiError : Type 0 where
  overflow bad_ostype index_error : AbiError

-- a decoded value: an integer, or the bytes of an OSType
pub data ScalarValue : Type 0 where
  number : ℤ → ScalarValue
  four : Bytes → ScalarValue

-- the last `w` base-256 digits of `n`, the highest first
unfoldable pub to_be : ℕ → ℕ → Bytes
to_be zero n = []
to_be (suc w) n = to_be w (n / 256) ++ n % 256 ∷ []

-- int.to_bytes(w, "big", signed=False), and signed=True
abbrev pub unsigned_bytes : ℕ → ℤ → Result AbiError Bytes
unsigned_bytes w (pos n) = if ltb n (256 ^ w) then ok (to_be w n) else err overflow
unsigned_bytes w (negsuc _) = err overflow

abbrev pub signed_bytes : ℕ → ℤ → Result AbiError Bytes
signed_bytes w (pos n) = if ltb n (256 ^ w / 2) then ok (to_be w n) else err overflow
signed_bytes w (negsuc n) =
    if ltb n (256 ^ w / 2) then ok (to_be w (256 ^ w - suc n)) else err overflow

abbrev pub is_signed : Scalar → Bool
is_signed s8 = true
is_signed s16 = true
is_signed s32 = true
is_signed s64 = true
is_signed _ = false

abbrev pub is_boolean : Scalar → Bool
is_boolean boolean = true
is_boolean _ = false

abbrev pub int_bytes : Scalar → ℤ → Result AbiError Bytes
int_bytes k v =
    if is_signed k then signed_bytes (scalar_size k) v else unsigned_bytes (scalar_size k) v

abbrev pub truth : ℤ → ℤ
truth (pos zero) = pos 0
truth _ = pos 1

-- Struct._scalar_encode of an integer
unfoldable pub scalar_encode : Scalar → ℤ → Result AbiError Bytes
unfolding to_be scalar_size
scalar_encode boolean v = int_bytes boolean (truth v)
scalar_encode k v = int_bytes k v

-- Struct._scalar_encode of an OSType that is given as bytes
unfoldable pub ostype_encode : Bytes → Result AbiError Bytes
ostype_encode bs = if length bs == 4 then ok bs else err bad_ostype

-- int.from_bytes(raw, "big", signed=True)
abbrev pub signed_value : ℕ → ℕ → ℤ
signed_value w n = if ltb n (256 ^ w / 2) then pos n else negsuc (256 ^ w - n - 1)

-- Struct._scalar_decode
unfoldable pub scalar_decode : Scalar → Bytes → Result AbiError ScalarValue
unfolding scalar_size
scalar_decode ostype raw = ok (four raw)
scalar_decode boolean [] = err index_error
scalar_decode boolean (b ∷ _) = ok (number (pos b))
scalar_decode k raw =
    if is_signed k
    then ok (number (signed_value (scalar_size k) (from_be 0 raw)))
    else ok (number (pos (from_be 0 raw)))

from_be-snoc : (acc b : ℕ) (bs : Bytes) → from_be acc (bs ++ b ∷ []) ≡ from_be acc bs * 256 + b
from_be-snoc acc b [] = refl
from_be-snoc acc b (c ∷ bs) = from_be-snoc (acc * 256 + c) b bs

pub from_be-to_be : (w n : ℕ) → n < 256 ^ w → from_be 0 (to_be w n) ≡ n
unfolding to_be
from_be-to_be zero n h = omega arith
from_be-to_be (suc w) n h =
    let p = pow-suc 256 w in
    omega
      (arith, from_be-snoc 0 (n % 256) (to_be w (n / 256)), from_be-to_be w (n / 256) (omega arith))

pub length-to_be : (w n : ℕ) → length (to_be w n) ≡ w
unfolding to_be
length-to_be zero n = refl
length-to_be (suc w) n =
    omega (arith, length-append {0} (to_be w (n / 256)) (n % 256 ∷ []), length-to_be w (n / 256))

unsigned_lem :
    (w : ℕ) (v : ℤ) (bs : Bytes)
    → unsigned_bytes w v ≡ ok bs
    → (pos (from_be 0 bs) ≡ v) × (length bs ≡ w)
unsigned_lem w (negsuc n) bs e = cc
unsigned_lem w (pos n) bs e = elim (Bool-cases (ltb n (256 ^ w))) [
  | inr over ↦ absurd (ground arith)
  | inl fits ↦
      let made : to_be w n ≡ bs = ground arith in
      rw (← made) (ap pos (from_be-to_be w n (ground arith)), length-to_be w n)
]

signed_lem :
    (w : ℕ) (v : ℤ) (bs : Bytes)
    → signed_bytes w v ≡ ok bs
    → (signed_value w (from_be 0 bs) ≡ v) × (length bs ≡ w)
signed_lem w (pos n) bs e = elim (Bool-cases (ltb n (256 ^ w / 2))) [
  | inr over ↦ absurd (ground arith)
  | inl fits ↦
      let made : to_be w n ≡ bs = ground arith in
      rw (← made) (rw (from_be-to_be w n (ground arith)) (rw fits refl), length-to_be w n)
]
signed_lem w (negsuc n) bs e = elim (Bool-cases (ltb n (256 ^ w / 2))) [
  | inr over ↦ absurd (ground arith)
  | inl fits ↦
      let made : to_be w (256 ^ w - suc n) ≡ bs = ground arith in
      rw (← made) (
        rw (from_be-to_be w (256 ^ w - suc n) (ground arith)) (ground arith),
        length-to_be w (256 ^ w - suc n),
      )
]

first_byte :
    (v : ℤ) (bs : Bytes)
    → pos (from_be 0 bs) ≡ v
    → length bs ≡ 1
    → scalar_decode boolean bs ≡ ok (number v)
unfolding scalar_decode
first_byte v [] e h = absurd (omega arith)
first_byte v (b ∷ []) e h =
    let z : 0 + b ≡ b = omega arith in ap (λ i. ok (number i)) (ap pos (sym z) ∙ e)
first_byte v (b ∷ c ∷ bs) e h = absurd (omega arith)

-- An integer that `scalar_encode` accepts for a type other than OSType is decoded from its bytes as
-- itself, a Boolean as 0 or 1, and the bytes have the type's size.
pub scalar_decode-encode :
    (k : Scalar) (v : ℤ) (bs : Bytes)
    → k ≢ ostype
    → scalar_encode k v ≡ ok bs
    → (scalar_decode k bs ≡ ok (number (if is_boolean k then truth v else v)))
      × (length bs ≡ scalar_size k)
unfolding scalar_encode scalar_decode
scalar_decode-encode ostype v bs n e = absurd (n refl)
scalar_decode-encode u8 v bs n e =
    let r = unsigned_lem 1 v bs e in (ap (λ i. ok (number i)) r.0, r.1)
scalar_decode-encode u16 v bs n e =
    let r = unsigned_lem 2 v bs e in (ap (λ i. ok (number i)) r.0, r.1)
scalar_decode-encode u32 v bs n e =
    let r = unsigned_lem 4 v bs e in (ap (λ i. ok (number i)) r.0, r.1)
scalar_decode-encode u64 v bs n e =
    let r = unsigned_lem 8 v bs e in (ap (λ i. ok (number i)) r.0, r.1)
scalar_decode-encode ptr v bs n e =
    let r = unsigned_lem 4 v bs e in (ap (λ i. ok (number i)) r.0, r.1)
scalar_decode-encode s8 v bs n e = let r = signed_lem 1 v bs e in (ap (λ i. ok (number i)) r.0, r.1)
scalar_decode-encode s16 v bs n e =
    let r = signed_lem 2 v bs e in (ap (λ i. ok (number i)) r.0, r.1)
scalar_decode-encode s32 v bs n e =
    let r = signed_lem 4 v bs e in (ap (λ i. ok (number i)) r.0, r.1)
scalar_decode-encode s64 v bs n e =
    let r = signed_lem 8 v bs e in (ap (λ i. ok (number i)) r.0, r.1)
scalar_decode-encode boolean v bs n e =
    let r = unsigned_lem 1 (truth v) bs e in (first_byte (truth v) bs r.0 r.1, r.1)
