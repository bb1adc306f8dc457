-- ===== src/Base/Int.antt =====
-- Python's integers where the program tests their sign: `negsuc n` is -(n + 1).
use Prim.Native.Nat.{ℕ, suc, ◌+◌, ◌≤◌, ◌<◌}
use mathlib.Core.Path.{◌≡◌}

pub data ℤ : Type 0 where
  pos : ℕ → ℤ
  negsuc : ℕ → ℤ

-- a number of `limit` values as signed: the upper half stands for the negative ones
abbrev pub IsSigned : ℕ → ℕ → ℤ → Type 0
IsSigned limit n (pos k) = (k ≡ n) × (k + k < limit)
IsSigned limit n (negsuc k) = (suc k + n ≡ limit) × (suc k + suc k ≤ limit)
