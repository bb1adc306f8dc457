-- ===== src/Panels.antt =====
-- panels.py: the records of the compiler's preference panels. A panel's byte fields are a function
-- of the field's name, as `getattr` and `setattr` see them; names drop the prefix of the setting's
-- XML name (MWFrontEnd_C_, MWWarning_C_, MWCodeGen_PPC_).
pub mod Layout
pub mod Records
pub mod Compiler
pub mod CodeGen
use Prim.Native.String.{String}
use text.Mathlib.Text.{◌==◌ as str_eq}
use cwhost.Base.{
  ℕ, zero, suc, ◌+◌, ◌-◌, ◌≡◌, Bool, true, false, ◌||◌, ◌&&◌, not, Option, none, some, List, [],
  ◌∷◌, ◌++◌, length, take, drop, set, replicate, ltb, leb, ◌==◌, if◌then◌else◌,
}
use cwhost.Base.Int.{ℤ, pos, negsuc}
use cwhost.Base.Result.{Result, ok, err, or_raise, raise_if, ◌>>=◌, ◌>>◌}
use cwhost.Base.Bytes.{Bytes, be16}
use cwhost.Base.Text.{Tables, find}

-- One constructor for each `raise ValueError`.
pub data PanelError : Type 0 where
  byte_range inline_range not_mac_roman pascal_length level_range : PanelError
  unknown_target target_range unknown_category unknown_alignment : PanelError

-- _byte and _bool of an integer
unfoldable pub byte : ℤ → Result PanelError ℕ
byte (pos n) = if ltb 0xFF n then err byte_range else ok n
byte (negsuc _) = err byte_range

-- data[start : start + len(raw)] = raw
abbrev pub splice : ℕ → Bytes → Bytes → Bytes
splice start raw target = take start target ++ (raw ++ drop (start + length raw) target)

module _ {S : Type 0} (offset : S → ℕ) where
  -- `for offset, name in table: data[offset] = _bool(getattr(self, name), name)`
  abbrev pub put_settings : List S → (S → ℤ) → Bytes → Result PanelError Bytes
  put_settings [] settings target = ok target
  put_settings (s ∷ rest) settings target =
      byte (settings s) >>= λ value. put_settings rest settings (set target (offset s) value)

  -- setattr: the offset tells a panel's fields apart
  abbrev pub assigned : S → ℤ → (S → ℤ) → S → ℤ
  assigned field value settings s = if offset field == offset s then value else settings s

-- the byte fields of CCompilerPanel
pub data CSetting : Type 0 where
  cplusplus checkprotos arm trigraphs onlystdkeywords enumsalwaysint mpwpointerstyle : CSetting
  ansistrict mpwcnewline wchar_type enableexceptions dontreusestrings poolstrings dontinline :
      CSetting
  use_rtti multibyteaware unsignedchars autoinline booltruefalse : CSetting
  ecplusplus objective_c defer_codegen templateparser c99 bottomupinline : CSetting

-- the offsets of CCompilerPanel.to_bytes
abbrev pub c_offset : CSetting → ℕ
c_offset cplusplus = 0x02
c_offset checkprotos = 0x03
c_offset arm = 0x04
c_offset trigraphs = 0x05
c_offset onlystdkeywords = 0x06
c_offset enumsalwaysint = 0x07
c_offset mpwpointerstyle = 0x08
c_offset ansistrict = 0x29
c_offset mpwcnewline = 0x2A
c_offset wchar_type = 0x2B
c_offset enableexceptions = 0x2C
c_offset dontreusestrings = 0x2D
c_offset poolstrings = 0x2E
c_offset dontinline = 0x2F
c_offset use_rtti = 0x30
c_offset multibyteaware = 0x31
c_offset unsignedchars = 0x32
c_offset autoinline = 0x33
c_offset booltruefalse = 0x34
c_offset ecplusplus = 0x3A
c_offset objective_c = 0x3B
c_offset defer_codegen = 0x3C
c_offset templateparser = 0x3D
c_offset c99 = 0x3E
c_offset bottomupinline = 0x3F

abbrev pub c_settings : List CSetting
c_settings =
    cplusplus ∷ checkprotos ∷ arm ∷ trigraphs ∷ onlystdkeywords ∷ enumsalwaysint ∷ mpwpointerstyle
    ∷ ansistrict ∷ mpwcnewline ∷ wchar_type ∷ enableexceptions ∷ dontreusestrings ∷ poolstrings
    ∷ dontinline ∷ use_rtti ∷ multibyteaware ∷ unsignedchars ∷ autoinline ∷ booltruefalse
    ∷ ecplusplus ∷ objective_c ∷ defer_codegen ∷ templateparser ∷ c99 ∷ bottomupinline ∷ []

pub record CCompilerPanel : Type 0 where
  pub settings : CSetting → ℤ
  pub inlinelevel : ℤ
  pub prefixname : String

-- the field's defaults
abbrev pub c_default : CSetting → ℤ
c_default cplusplus = pos 1
c_default mpwcnewline = pos 1
c_default wchar_type = pos 1
c_default bottomupinline = pos 1
c_default _ = pos 0

-- int.to_bytes(2, "big", signed=True) behind its range check
abbrev pub signed16 : ℤ → Result PanelError Bytes
signed16 (pos n) = if ltb 0x7FFF n then err inline_range else ok (be16 n)
signed16 (negsuc n) = if ltb 0x7FFF n then err inline_range else ok (be16 (0xFFFF - n))

-- the fixed field of a Pascal string, of text that MacRoman has
abbrev pub pascal_of : ℕ → Bytes → Result PanelError Bytes
pascal_of capacity raw =
    if ltb (capacity - 1) (length raw)
    then err pascal_length
    else ok (length raw ∷ (raw ++ replicate (capacity - 1 - length raw) 0))

-- the byte fields of CWarningsPanel, in the order of _FIELDS
pub data WSetting : Type 0 where
  illpragma emptydecl possunwant unusedvar unusedarg extracomma pedantic warningerrors : WSetting
  hidevirtual implicitconv notinlined structclass : WSetting

abbrev pub w_settings : List WSetting
w_settings =
    illpragma ∷ emptydecl ∷ possunwant ∷ unusedvar ∷ unusedarg ∷ extracomma ∷ pedantic
    ∷ warningerrors ∷ hidevirtual ∷ implicitconv ∷ notinlined ∷ structclass ∷ []

-- the field's place in the record
abbrev pub w_offset : WSetting → ℕ
w_offset illpragma = 2
w_offset emptydecl = 3
w_offset possunwant = 4
w_offset unusedvar = 5
w_offset unusedarg = 6
w_offset extracomma = 7
w_offset pedantic = 8
w_offset warningerrors = 9
w_offset hidevirtual = 10
w_offset implicitconv = 11
w_offset notinlined = 12
w_offset structclass = 13

abbrev pub w_default : WSetting → ℤ
w_default warningerrors = pos 0
w_default implicitconv = pos 0
w_default notinlined = pos 0
w_default _ = pos 1

abbrev pub byte_list : {S : Type 0} → List S → (S → ℤ) → Result PanelError Bytes
byte_list [] settings = ok []
byte_list (s ∷ rest) settings = do
  value ← byte (settings s)
  values ← byte_list rest settings
  ok (value ∷ values)

-- CWarningsPanel.to_bytes
unfoldable pub warnings_bytes : (WSetting → ℤ) → Result PanelError Bytes
unfolding byte
warnings_bytes settings = byte_list w_settings settings >>= λ values. ok (0 ∷ 5 ∷ values)
