-- ===== src/Tests/Options.antt =====
-- cli/flags.py and panels.py: command lines in lower case, in ASCII.
use Prim.Native.String.{String}
use Prim.Native.Char.{code}
use cwhost.Base.{ℕ, ◌≡◌, refl, some, List, [], ◌∷◌, arith}
use cwhost.Base.Int.{pos, negsuc}
use cwhost.Base.Result.{Result, ok, err, IsOk}
use cwhost.Base.Bytes.{Bytes, slice}
use cwhost.Base.Text.{Tables, find}
use cwhost.Panels.{
  WSetting, w_default, w_settings, w_offset, c_default, c_settings, c_offset, byte, warnings_bytes,
  cplusplus, c99, autoinline, dontinline, warningerrors, unusedvar, signed16,
}
use cwhost.Panels.Compiler.{compiler_bytes}
use cwhost.Panels.CodeGen.{defaults, codegen_bytes}
use cwhost.Panels.Records.{Encoded, compiler_bytes-Encoded}
use cwhost.Flags.Commands.{missing_operand, unknown_dialect}
use cwhost.Flags.{State, from_flags}
use cwhost.Flags.Settings.{AllBits}
use cwhost.Flags.Bits.{from_flags-AllBits}
use cwhost.Flags.Leftovers.{unclaimed, from_flags_leftovers}
use cwhost.Flags.Encode.{from_flags-compiler_bytes}

abbrev codes : String → List ℕ
codes String.[] = []
codes (String.◌∷◌ c s) = code c ∷ codes s

-- numbers are the literals that the command lines below have
abbrev ascii : Tables
ascii = record {
  casefold = λ s. s;
  int_of = λ s. find s (("2", pos 2) ∷ ("8", pos 8) ∷ ("-1", negsuc 0) ∷ []);
  mac_roman = λ s. some (codes s);
}

abbrev accepted : Result cwhost.Flags.Commands.FlagError State → State
accepted (ok s) = s
accepted (err e) = record { panels = defaults; leftovers = [] }

abbrev command_line : List String
command_line =
    "-lang" ∷ "c99" ∷ "main.c" ∷ "-inline" ∷ "level=2" ∷ "-w" ∷ "nounusedvar" ∷ "-werror" ∷ "-ansi"
    ∷ "-opt" ∷ "level=2" ∷ "-o" ∷ "out.o" ∷ []

abbrev result : State
result = accepted (from_flags ascii command_line)

line_accepted : from_flags ascii command_line ≡ ok result
unfolding from_flags
line_accepted = refl

line_leftovers : result.leftovers ≡ "main.c" ∷ "-o" ∷ "out.o" ∷ []
unfolding from_flags
line_leftovers = refl

line_settings :
    (result.panels.compiler.settings c99 ≡ pos 1)
    × (result.panels.compiler.settings cplusplus ≡ pos 0)
    × (result.panels.compiler.inlinelevel ≡ pos 2)
    × (result.panels.warnings unusedvar ≡ pos 0)
    × (result.panels.warnings warningerrors ≡ pos 1)
unfolding from_flags
line_settings = (refl, refl, refl, refl, refl)

operand_missing : from_flags ascii ("-char" ∷ []) ≡ err missing_operand
unfolding from_flags
operand_missing = refl

dialect_unknown : from_flags ascii ("-dialect" ∷ "pascal" ∷ []) ≡ err unknown_dialect
unfolding from_flags
dialect_unknown = refl

from_flags-AllBits_example : AllBits result.panels
from_flags-AllBits_example = from_flags-AllBits ascii command_line line_accepted

from_flags_leftovers_example : result.leftovers ≡ unclaimed ascii command_line
from_flags_leftovers_example = from_flags_leftovers ascii command_line line_accepted

prefix_kept : ascii.mac_roman result.panels.compiler.prefixname ≡ some (codes "MacHeadersCarbon.h")
unfolding from_flags
prefix_kept = refl

level_kept : signed16 result.panels.compiler.inlinelevel ≡ ok (0 ∷ 2 ∷ [])
unfolding from_flags
level_kept = refl

from_flags-compiler_bytes_example : IsOk (compiler_bytes ascii result.panels.compiler)
from_flags-compiler_bytes_example =
    from_flags-compiler_bytes ascii command_line line_accepted prefix_kept (omega arith) level_kept

default_warnings :
    warnings_bytes w_default ≡ ok (0 ∷ 5 ∷ 1 ∷ 1 ∷ 1 ∷ 1 ∷ 1 ∷ 1 ∷ 1 ∷ 0 ∷ 1 ∷ 0 ∷ 0 ∷ 1 ∷ [])
unfolding warnings_bytes
default_warnings = refl

abbrev bytes_of : Result cwhost.Panels.PanelError Bytes → Bytes
bytes_of (ok out) = out
bytes_of (err e) = []

abbrev compiler_record : Bytes
compiler_record = bytes_of (compiler_bytes ascii defaults.compiler)

compiler_encoded : compiler_bytes ascii defaults.compiler ≡ ok compiler_record
unfolding compiler_bytes
compiler_encoded = refl

-- the mirrored name of the prefix file
compiler_prefix : slice compiler_record 0x09 0x0C ≡ 18 ∷ 77 ∷ 97 ∷ []
unfolding compiler_bytes
compiler_prefix = refl

compiler_bytes-Encoded_example : Encoded 0x140 16 c_offset c_settings c_default compiler_record
compiler_bytes-Encoded_example = compiler_bytes-Encoded ascii defaults.compiler compiler_encoded

abbrev codegen_record : Bytes
codegen_record = bytes_of (codegen_bytes ascii defaults.codegen)

codegen_encoded : codegen_bytes ascii defaults.codegen ≡ ok codegen_record
unfolding codegen_bytes
codegen_encoded = refl
