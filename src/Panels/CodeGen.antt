-- ===== src/Panels/CodeGen.antt =====
-- panels.py, class PPCCodeGenPanel, and the defaults of all panels.
use Prim.Native.String.{String}
use Prim.Native.Char.{code}
use cwhost.Base.{ℕ, List, [], ◌∷◌, replicate, set, ◌==◌, if◌then◌else◌}
use cwhost.Base.Int.{ℤ, pos, negsuc}
use cwhost.Base.Result.{Result, ok, err, or_raise, ◌>>=◌}
use cwhost.Base.Bytes.{Bytes, be16}
use cwhost.Base.Dict.{Dict, lookup}
use cwhost.Base.Text.{Tables, find}
use cwhost.Panels.{
  PanelError, unknown_category, unknown_alignment, byte, splice, put_settings, CCompilerPanel,
  WSetting, c_default, w_default,
}
use cwhost.Panels.Compiler.{Choice, number, word, PpcGlobalOptimizerPanel}

-- the byte fields of PpcCodeGenPanel
pub data GSetting : Type 0 where
  readonlystrings tocdata profiler fpcontract schedule peephole altivec vectortocdata : GSetting
  poolconst volatileasm strict_ieee_fp genfsel orderedfpcmp altivec_move_block largetoc : GSetting
  linkerpoolsstrings : GSetting

abbrev pub g_offset : GSetting → ℕ
g_offset readonlystrings = 0x05
g_offset tocdata = 0x06
g_offset profiler = 0x07
g_offset fpcontract = 0x08
g_offset schedule = 0x09
g_offset peephole = 0x0A
g_offset altivec = 0x0C
g_offset vectortocdata = 0x0D
g_offset poolconst = 0x11
g_offset volatileasm = 0x12
g_offset strict_ieee_fp = 0x13
g_offset genfsel = 0x14
g_offset orderedfpcmp = 0x15
g_offset altivec_move_block = 0x16
g_offset largetoc = 0x19
g_offset linkerpoolsstrings = 0x1A

abbrev pub g_settings : List GSetting
g_settings =
    readonlystrings ∷ tocdata ∷ profiler ∷ fpcontract ∷ schedule ∷ peephole ∷ altivec
    ∷ vectortocdata ∷ poolconst ∷ volatileasm ∷ strict_ieee_fp ∷ genfsel ∷ orderedfpcmp
    ∷ altivec_move_block ∷ largetoc ∷ linkerpoolsstrings ∷ []

abbrev pub g_default : GSetting → ℤ
g_default readonlystrings = pos 1
g_default tocdata = pos 1
g_default fpcontract = pos 1
g_default schedule = pos 1
g_default peephole = pos 1
g_default _ = pos 0

pub record PpcCodeGenPanel : Type 0 where
  pub structalignment : Choice
  pub tracebacktables : Choice
  pub processor : Choice
  pub settings : GSetting → ℤ
  pub function_align : ℤ

-- _ALIGNMENT, _TRACEBACK, _PROCESSORS
abbrev pub alignments : List (String × ℕ)
alignments =
    ("mc68k", 0)
    ∷ ("mac68k", 0)
    ∷ ("mac68k4byte", 1)
    ∷ ("natural", 2)
    ∷ ("arraymembers", 3)
    ∷ ("ppc_mw", 4)
    ∷ ("powerpc", 4)
    ∷ []

abbrev pub tracebacks : List (String × ℕ)
tracebacks = ("none", 0) ∷ ("inline", 1) ∷ ("outofline", 2) ∷ []

abbrev pub processors : List (String × ℕ)
processors =
    ("generic", 0)
    ∷ ("p601", 1)
    ∷ ("p603", 2)
    ∷ ("p603e", 3)
    ∷ ("p604", 4)
    ∷ ("p604e", 5)
    ∷ ("p750", 6)
    ∷ ("altivec", 7)
    ∷ ("p7400", 8)
    ∷ ("p7450", 9)
    ∷ []

-- _FUNCTION_ALIGNMENT
abbrev pub function_alignments : Dict ℕ
function_alignments = (4, 2) ∷ (8, 3) ∷ (16, 4) ∷ (32, 2) ∷ []

abbrev pub function_alignment : ℤ → Result PanelError ℕ
function_alignment (pos n) = or_raise (lookup n function_alignments) unknown_alignment
function_alignment (negsuc _) = err unknown_alignment

-- key.replace(" ", "")
abbrev pub without_spaces : String → String
without_spaces String.[] = String.[]
without_spaces (String.◌∷◌ c key) =
    let rest = without_spaces key in if code c == 0x20 then rest else String.◌∷◌ c rest

module _ (t : Tables) where
  open t use {casefold}

  -- _categorical
  abbrev pub categorical : Choice → List (String × ℕ) → Result PanelError ℕ
  categorical (word value) mapping =
      or_raise (find (without_spaces (casefold value)) mapping) unknown_category
  categorical (number n) mapping = byte n

  -- PPCCodeGenPanel.to_bytes
  unfoldable pub codegen_bytes : PpcCodeGenPanel → Result PanelError Bytes
  unfolding byte
  codegen_bytes panel = do
    let version = splice 0 (be16 7) (replicate 0x22 0)
    alignment ← categorical panel.structalignment alignments
    traceback ← categorical panel.tracebacktables tracebacks
    processor ← categorical panel.processor processors
    let chosen = set (set (set version 0x02 alignment) 0x03 traceback) 0x04 processor
    flags ← put_settings g_offset g_settings panel.settings chosen
    align ← function_alignment panel.function_align
    ok (set flags 0x17 align)

-- the four panels of `defaults`
pub record Panels : Type 0 where
  pub compiler : CCompilerPanel
  pub warnings : WSetting → ℤ
  pub optimizer : PpcGlobalOptimizerPanel
  pub codegen : PpcCodeGenPanel

abbrev pub defaults : Panels
defaults = record {
  compiler = record {
    settings = c_default;
    inlinelevel = pos 0;
    prefixname = "MacHeadersCarbon.h";
  };
  warnings = w_default;
  optimizer = record { optimizationlevel = pos 4; optfor = number (pos 0) };
  codegen = record {
    structalignment = number (pos 4);
    tracebacktables = number (pos 0);
    processor = number (pos 0);
    settings = g_default;
    function_align = pos 4;
  };
}
