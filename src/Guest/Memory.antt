-- ===== src/Guest/Memory.antt =====
-- guest.py, Guest.read to Guest.w32: big-endian access to the emulator's memory. An address is cut
-- to 32 bits. `none` is the emulator's fault.
use mathlib.Core.Option
use cwhost.Base.{
  replicate, ℕ, zero, suc, ◌+◌, ◌%◌, ◌≤◌, ◌<◌, ◌≡◌, refl, Option, none, some, [], ◌∷◌, arith,
  length, ap, ◌∙◌, ◌⊎◌,
}
use mathlib.Core.Path.{ap₂}
use cwhost.Base.Bytes.{Bytes, be16, be32, be32_value, head_u16, head_u32}
use cwhost.Guest.{Emulator, bytes_from, patched, AllMapped}

abbrev pub join : {A : Type 0} → Option (Option A) → Option A
join none = none
join (some o) = o

module _ (u : Emulator) where
  open u use {State, mem_read, mem_write}

  unfoldable pub read : State → ℕ → ℕ → Option Bytes
  read m a n = mem_read m (a % 0x1_0000_0000) n

  unfoldable pub write : State → ℕ → Bytes → Option State
  write m a bs = mem_write m (a % 0x1_0000_0000) bs

  unfoldable pub u16 : State → ℕ → Option ℕ
  u16 m a = join (Option.map head_u16 (read m a 2))

  unfoldable pub u32 : State → ℕ → Option ℕ
  u32 m a = join (Option.map head_u32 (read m a 4))

  unfoldable pub w8 : State → ℕ → ℕ → Option State
  w8 m a n = write m a (n % 0x100 ∷ [])

  unfoldable pub w16 : State → ℕ → ℕ → Option State
  w16 m a n = write m a (be16 (n % 0x1_0000))

  unfoldable pub w32 : State → ℕ → ℕ → Option State
  w32 m a n = write m a (be32 (n % 0x1_0000_0000))

-- The written bytes are read back; elsewhere nothing changes.
pub patched_outside :
    (a : ℕ) (bs : Bytes) (f : ℕ → ℕ) (x : ℕ)
    → (x < a) ⊎ (a + length bs ≤ x)
    → patched a bs f x ≡ f x
patched_outside a [] f x h = refl
patched_outside a (b ∷ bs) f x h = ground (arith, patched_outside (suc a) bs f x)

pub bytes_from_ext :
    (f g : ℕ → ℕ) (a n : ℕ)
    → ((x : ℕ) → a ≤ x → x < a + n → f x ≡ g x)
    → bytes_from f a n ≡ bytes_from g a n
bytes_from_ext f g a zero h = refl
bytes_from_ext f g a (suc n) h =
    ap₂ (λ b bs. b ∷ bs) (h a (omega arith) (omega arith))
      (bytes_from_ext f g (suc a) n (λ x l u. h x (omega arith) (omega arith)))

pub bytes_from-patched :
    (a : ℕ) (bs : Bytes) (f : ℕ → ℕ) → bytes_from (patched a bs f) a (length bs) ≡ bs
bytes_from-patched a [] f = refl
bytes_from-patched a (b ∷ bs) f =
    ap₂ (λ c cs. c ∷ cs) (ground arith)
      (bytes_from_ext (patched a (b ∷ bs) f) (patched (suc a) bs f) (suc a) (length bs)
          (λ x l u. ground arith)
        ∙ bytes_from-patched (suc a) bs f)

pub length-bytes_from : (f : ℕ → ℕ) (a n : ℕ) → length (bytes_from f a n) ≡ n
length-bytes_from f a zero = refl
length-bytes_from f a (suc n) = ap suc (length-bytes_from f (suc a) n)

-- A copy of `n` bytes from `a` to `c` holds at `c + i` what stood at `a + i`.
pub patched_copy :
    (c a n i : ℕ) (f g : ℕ → ℕ) → i < n → patched c (bytes_from g a n) f (c + i) ≡ g (a + i)
patched_copy c a zero i f g h = absurd (omega arith)
patched_copy c a (suc n) zero f g h =
    let e : c + 0 ≡ c = omega arith in let e' : a + 0 ≡ a = omega arith in rw (e, e') (ground arith)
patched_copy c a (suc n) (suc i) f g h =
    let e : c + suc i ≡ suc c + i = omega arith in
    let e' : a + suc i ≡ suc a + i = omega arith in
    let later = patched_copy (suc c) (suc a) n i f g (omega arith) in
    rw (e, e') (ground (arith, later))

pub patched_zeros : (a n i : ℕ) (f : ℕ → ℕ) → i < n → patched a (replicate n 0) f (a + i) ≡ 0
patched_zeros a zero i f h = absurd (omega arith)
patched_zeros a (suc n) zero f h = let e : a + 0 ≡ a = omega arith in rw e (ground arith)
patched_zeros a (suc n) (suc i) f h =
    let e : a + suc i ≡ suc a + i = omega arith in
    let later = patched_zeros (suc a) n i f (omega arith) in rw e (ground (arith, later))

module _ (u : Emulator) where
  open u use {State, mapped, byte, mem_read, mem_write, read_mapped, write_mapped}

  pub read_lem :
      (m : State) (a n : ℕ)
      → a < 0x1_0000_0000
      → AllMapped (mapped m) a n
      → read u m a n ≡ some (bytes_from (byte m) a n)
  unfolding read
  read_lem m a n l h =
      let t : a % 0x1_0000_0000 ≡ a = omega arith in
      ap (λ b. mem_read m b n) t ∙ read_mapped m a n h

  -- A write to mapped memory succeeds, changes the bytes it writes and no others.
  pub write_lem :
      (m : State) (a n : ℕ) (bs : Bytes)
      → a < 0x1_0000_0000
      → length bs ≡ n
      → AllMapped (mapped m) a n
      → (m' : State) × (write u m a bs ≡ some m')
        × ((x : ℕ) → mapped m' x ≡ mapped m x)
        × ((x : ℕ) → byte m' x ≡ patched a bs (byte m) x)
  unfolding write
  write_lem m a n bs l k h =
      let t : a % 0x1_0000_0000 ≡ a = omega arith in
      let w = write_mapped m a bs (λ x p q. h x p (omega arith)) in
      (w.0, ap (λ b. mem_write m b bs) t ∙ w.1, w.2, w.3)

-- A 32-bit word is read back from where it was written.
module _ (u : Emulator) where
  open u use {State, mapped, byte}

  pub u32_lem :
      (m : State) (a n : ℕ) (f : ℕ → ℕ)
      → a < 0x1_0000_0000
      → n < 0x1_0000_0000
      → AllMapped (mapped m) a 4
      → ((x : ℕ) → a ≤ x → x < a + 4 → byte m x ≡ patched a (be32 (n % 0x1_0000_0000)) f x)
      → u32 u m a ≡ some n
  unfolding u32
  u32_lem m a n f la ln h e =
      let k : n % 0x1_0000_0000 ≡ n = omega arith in
      let same : bytes_from (byte m) a 4 ≡ be32 (n % 0x1_0000_0000) =
        bytes_from_ext (byte m) (patched a (be32 (n % 0x1_0000_0000)) f) a 4 e
        ∙ bytes_from-patched a (be32 (n % 0x1_0000_0000)) f in
      ap (λ o. join (Option.map head_u32 o)) (read_lem u m a 4 la h ∙ ap some same)
      ∙ ap some (be32_value (n % 0x1_0000_0000) (omega arith) ∙ k)

  -- A word that is written changes four bytes.
  pub w32_lem :
      (m : State) (a n : ℕ)
      → a < 0x1_0000_0000
      → AllMapped (mapped m) a 4
      → (m' : State) × (w32 u m a n ≡ some m')
        × ((x : ℕ) → mapped m' x ≡ mapped m x)
        × ((x : ℕ) → byte m' x ≡ patched a (be32 (n % 0x1_0000_0000)) (byte m) x)
  unfolding w32
  w32_lem m a n l h = write_lem u m a 4 (be32 (n % 0x1_0000_0000)) l refl h
