-- ===== src/Guest.antt =====
-- guest.py: the guest's memory. The emulator (Unicorn) is not part of the repository: it is the
-- parameter `Emulator`, of which only the documented behaviour of its memory calls is assumed.
pub mod Memory
pub mod Arguments
pub mod Traps
pub mod Scratch
use cwhost.Base.{
  ℕ, zero, suc, ◌+◌, ◌-◌, ◌≤◌, ◌<◌, ◌≡◌, Bool, true, false, Option, none, some, List, [], ◌∷◌,
  length, ◌==◌, if◌then◌else◌,
}
use cwhost.Base.Bytes.{Bytes}

-- the bytes of `n` addresses from `a` on
abbrev pub bytes_from : (ℕ → ℕ) → ℕ → ℕ → Bytes
bytes_from f a zero = []
bytes_from f a (suc n) = f a ∷ bytes_from f (suc a) n

-- the contents after `bs` were written at `a`
abbrev pub patched : ℕ → Bytes → (ℕ → ℕ) → ℕ → ℕ
patched a [] f x = f x
patched a (b ∷ bs) f x = if x == a then b else patched (suc a) bs f x

abbrev pub AllMapped : (ℕ → Bool) → ℕ → ℕ → Type 0
AllMapped mapped a n = (x : ℕ) → a ≤ x → x < a + n → mapped x ≡ true

-- Unicorn's `mem_read` and `mem_write`: they transfer bytes of mapped addresses, and raise (`none`)
-- where an address is not mapped.
pub record Emulator : Type 1 where
  pub State : Type 0
  pub mapped : State → ℕ → Bool
  pub byte : State → ℕ → ℕ
  pub mem_read : State → ℕ → ℕ → Option Bytes
  pub mem_write : State → ℕ → Bytes → Option State
  pub read_mapped :
      (m : State) (a n : ℕ)
      → AllMapped (mapped m) a n
      → mem_read m a n ≡ some (bytes_from (byte m) a n)
  pub write_mapped :
      (m : State) (a : ℕ) (bs : Bytes)
      → AllMapped (mapped m) a (length bs)
      → (m' : State) × (mem_write m a bs ≡ some m')
        × ((x : ℕ) → mapped m' x ≡ mapped m x)
        × ((x : ℕ) → byte m' x ≡ patched a bs (byte m) x)
