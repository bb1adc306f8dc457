-- ===== src/Flags.antt =====
-- cli/flags.py: the compiler's command line as settings of the preference panels. The chain of tests
-- on a flag is the table `commands`: no two tests of the chain name the same flag.
pub mod Commands
pub mod Table
pub mod Settings
pub mod Bits
pub mod Leftovers
pub mod Encode
use Prim.Native.String.{String}
use text.Mathlib.Text.{◌==◌ as str_eq}
use cwhost.Base.{
  ℕ, zero, suc, Bool, true, false, Option, none, some, List, [], ◌∷◌, ◌++◌, if◌then◌else◌,
}
use cwhost.Base.Int.{ℤ, pos, negsuc}
use cwhost.Base.Result.{Result, ok, err, or_raise, ◌>>=◌}
use cwhost.Base.Text.{Tables, starts_with, find}
use cwhost.Panels.CodeGen.{Panels, defaults}
use cwhost.Flags.Table.{commands, ansi_fields}
use cwhost.Flags.Commands.{
  FlagError, missing_operand, Command, constant, ansi, Field, assign_all, on_off, operate,
}

-- the panels so far, and the arguments that are left to the caller
pub record State : Type 0 where
  pub panels : Panels
  pub leftovers : List String

-- The operand of -ansi: the next argument, unless it is a flag. The Boolean tells whether it is taken.
abbrev pub ansi_operand : Option String → String × Bool
ansi_operand none = ("on", false)
ansi_operand (some value) = if starts_with value "-" then ("on", false) else (value, true)

module _ (t : Tables) where
  open t use {casefold}

  -- enabled = _onoff(value, flag) if value not in {"strict"} else 1
  abbrev pub ansi_enabled : String → Result FlagError ℤ
  ansi_enabled value = if str_eq value "strict" then ok (pos 1) else on_off t value

  -- A round of the loop on a flag: whether it takes the next argument, and the state after it.
  abbrev pub obey :
      Option Command → String → Option String → State → Result FlagError (Bool × State)
  obey none flag operand s = ok (false, record s { leftovers = s.leftovers ++ flag ∷ [] })
  obey (some (constant fields)) flag operand s =
      ok (false, record s { panels = assign_all fields s.panels })
  obey (some ansi) flag operand s =
      let (value, taken) = ansi_operand operand in
      ansi_enabled value >>= λ enabled.
      ok (taken, record s { panels = assign_all (ansi_fields enabled) s.panels })
  obey (some command) flag none s = err missing_operand
  obey (some command) flag (some value) s =
      operate t command value s.panels >>= λ p. ok (true, record s { panels = p })

  unfoldable pub handle : String → Option String → State → Result FlagError (Bool × State)
  unfolding operate
  handle flag operand s = obey (find (casefold flag) commands) flag operand s

  -- the loop
  unfoldable pub run : List String → State → Result FlagError State
  unfolding handle
  run [] s = ok s
  run (flag ∷ []) s = handle flag none s >>= λ r. ok r.1
  run (flag ∷ next ∷ rest) s = handle flag (some next) s >>= λ r. elim r.0 [
    | true ↦ run rest r.1
    | false ↦ run (next ∷ rest) r.1
  ]

  -- from_flags
  unfoldable pub from_flags : List String → Result FlagError State
  unfolding run
  from_flags argv = run argv (record { panels = defaults; leftovers = [] })
