-- ===== src/Guest/Scratch.antt =====
-- guest.py, Guest.alloc: the scratch area, from which the host takes memory that it never gives back.
use cwhost.Base.{
  ℕ, zero, suc, ◌+◌, ◌*◌, ◌/◌, ◌%◌, max, Bool, ◌||◌, ◌&&◌, not, ltb, ◌==◌, if◌then◌else◌,
}
use cwhost.Base.Int.{ℤ, pos, negsuc}
use cwhost.Base.Result.{Result, ok, err}

abbrev pub scratch_base : ℕ
scratch_base = 0x2A00_0000

abbrev pub scratch_size : ℕ
scratch_size = 0x100_0000

pub data ScratchError : Type 0 where
  bad_request scratch_exhausted : ScratchError

-- align & (align - 1) is zero for a positive number: halving it ends at one without a rest
abbrev pub halves_to_one : ℕ → ℕ → Bool
halves_to_one zero n = n == 1
halves_to_one (suc fuel) n =
    let half = halves_to_one fuel (n / 2) in (n == 1) || ((n % 2 == 0) && half)

-- Guest._align_up, for a power of two
abbrev pub align_up : ℕ → ℕ → ℕ
align_up value zero = value
align_up value (suc a) = (value + a) / suc a * suc a

-- the new address and the new end, for a request that is well formed
abbrev pub take_scratch : ℕ → ℕ → ℕ → Result ScratchError ℕ × ℕ
take_scratch size align scratch =
    let address = align_up scratch align in
    if ltb (scratch_base + scratch_size) (address + max size 1)
    then (err scratch_exhausted, scratch)
    else (ok address, address + max size 1)

-- Guest.alloc; the state is self._scratch.
unfoldable pub alloc : ℤ → ℤ → ℕ → Result ScratchError ℕ × ℕ
alloc (negsuc _) align scratch = (err bad_request, scratch)
alloc (pos size) (negsuc _) scratch = (err bad_request, scratch)
alloc (pos size) (pos align) scratch =
    if (align == 0) || not (halves_to_one align align)
    then (err bad_request, scratch)
    else take_scratch size align scratch
