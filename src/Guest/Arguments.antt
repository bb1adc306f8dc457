-- ===== src/Guest/Arguments.antt =====
-- guest.py, Guest.args: the arguments of a guest call, in the registers and on the stack. The
-- register files are parameters, as the emulator returns them; `Float` is the type of its doubles.
pub mod Laws
use Prim.Native.String.{String}
use cwhost.Base.{
  ℕ, zero, suc, ◌+◌, ◌-◌, ◌*◌, ◌%◌, ◌≡◌, ◌≤◌, ◌<◌, ◌∙◌, Bool, true, false, ◌||◌, Option, none, some,
  List, [], ◌∷◌, length, take, get_elem?, ltb, if◌then◌else◌, refl, ap, arith, Bool-cases, inl, inr,
}
use cwhost.Base.Int.{ℤ, pos, negsuc}
use cwhost.Base.Result.{Result, ok, err, or_raise, raise_if, ◌>>=◌, ◌>>◌, >>=-eq-ok}
use cwhost.Guest.{Emulator}
use cwhost.Guest.Memory.{u32}

-- a name in `spec`
pub data ArgType : Type 0 where
  long ptr short unsigned_short octet double unsigned_wide wide : ArgType
  other : String → ArgType

pub data ArgError : Type 0 where
  unsupported invalid_register guest_fault : ArgError

pub data Value (F : Type 0) : Type 0 where
  int : ℤ → Value F
  float : F → Value F

abbrev pub is_other : ArgType → Bool
is_other (other _) = true
is_other _ = false

abbrev pub any_other : List ArgType → Bool
any_other [] = false
any_other (item ∷ spec) = is_other item || any_other spec

-- the words of the argument area that an argument takes
abbrev pub width : ArgType → ℕ
width double = 2
width unsigned_wide = 2
width wide = 2
width _ = 1

abbrev pub floats : ArgType → ℕ
floats double = 1
floats _ = 0

-- `value -= 1 << 64` where bit 63 is set
abbrev pub signed64 : ℕ → ℤ
signed64 n = if ltb n 0x8000_0000_0000_0000 then pos n else negsuc (0xFFFF_FFFF_FFFF_FFFF - n)

abbrev pub signed16 : ℕ → ℤ
signed16 n = if ltb n 0x8000 then pos n else negsuc (0xFFFF - n)

module _ (u : Emulator) (m : u.State) {F : Type 0} (reg : ℕ → ℕ) (freg : ℕ → F) where
  -- Guest.gpr
  abbrev pub gpr : ℕ → Result ArgError ℕ
  gpr n = if ltb 31 n then err invalid_register else ok (reg n % 0x1_0000_0000)

  -- Guest.fpr, where `freg` has decoded the register's bits
  abbrev pub fpr : ℕ → Result ArgError F
  fpr n = if ltb 31 n then err invalid_register else ok (freg n)

  abbrev pub stack_word : ℕ → Result ArgError ℕ
  stack_word word = gpr 1 >>= λ stack. or_raise (u32 u m (stack + 24 + 4 * word)) guest_fault

  -- word `word` of the argument area
  abbrev pub word_at : ℕ → Result ArgError ℕ
  word_at word = if ltb word 8 then gpr (3 + word) else stack_word word

  abbrev pub wide_at : ℕ → Result ArgError ℕ
  wide_at word = do high ← word_at word; low ← word_at (word + 1); ok (high * 0x1_0000_0000 + low)

  -- an argument at a word of the area, behind a number of doubles
  unfoldable pub value_at : ArgType → ℕ → ℕ → Result ArgError (Value F)
  unfolding u32
  value_at double word float_index = fpr (1 + float_index) >>= λ x. ok (float x)
  value_at unsigned_wide word float_index = wide_at word >>= λ n. ok (int (pos n))
  value_at wide word float_index = wide_at word >>= λ n. ok (int (signed64 n))
  value_at octet word float_index = word_at word >>= λ n. ok (int (pos (n % 0x100)))
  value_at unsigned_short word float_index = word_at word >>= λ n. ok (int (pos (n % 0x1_0000)))
  value_at short word float_index = word_at word >>= λ n. ok (int (signed16 (n % 0x1_0000)))
  value_at long word float_index = word_at word >>= λ n. ok (int (pos n))
  value_at ptr word float_index = word_at word >>= λ n. ok (int (pos n))
  value_at (other _) word float_index = err unsupported

  -- the loop
  unfoldable pub args_from : List ArgType → ℕ → ℕ → Result ArgError (List (Value F))
  unfolding value_at
  args_from [] word float_index = ok []
  args_from (item ∷ spec) word float_index = do
    value ← value_at item word float_index
    values ← args_from spec (word + width item) (float_index + floats item)
    ok (value ∷ values)

  -- Guest.args
  unfoldable pub args : List ArgType → Result ArgError (List (Value F))
  unfolding args_from
  args spec = raise_if (any_other spec) unsupported >> args_from spec 0 0
