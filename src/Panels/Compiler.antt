-- ===== src/Panels/Compiler.antt =====
-- panels.py, CCompilerPanel.to_bytes and PPCGlobalOptimizerPanel.to_bytes.
use Prim.Native.String.{String}
use text.Mathlib.Text.{◌==◌ as str_eq}
use cwhost.Base.{ℕ, [], ◌∷◌, ◌++◌, replicate, ltb, if◌then◌else◌}
use cwhost.Base.Int.{ℤ, pos, negsuc}
use cwhost.Base.Result.{Result, ok, err, or_raise, raise_if, ◌>>=◌, ◌>>◌}
use cwhost.Base.Bytes.{Bytes, be16}
use cwhost.Base.Text.{Tables, find}
use cwhost.Panels.{
  PanelError, not_mac_roman, level_range, unknown_target, target_range, byte, splice, put_settings,
  c_offset, c_settings, CCompilerPanel, signed16, pascal_of,
}

-- a field of type `int | str`
pub data Choice : Type 0 where
  number : ℤ → Choice
  word : String → Choice

pub record PpcGlobalOptimizerPanel : Type 0 where
  pub optimizationlevel : ℤ
  pub optfor : Choice

abbrev pub level_byte : ℤ → Result PanelError ℕ
level_byte (pos n) = if ltb 4 n then err level_range else ok n
level_byte (negsuc _) = err level_range

module _ (t : Tables) where
  open t use {casefold, mac_roman}

  -- _pascal
  abbrev pub pascal : String → ℕ → Result PanelError Bytes
  pascal value capacity = or_raise (mac_roman value) not_mac_roman >>= pascal_of capacity

  -- the mirrored prefix of CW 8.x
  abbrev pub with_legacy : String → Bytes → Result PanelError Bytes
  with_legacy prefixname named =
      if str_eq prefixname ""
      then ok named
      else (pascal prefixname 0x20 >>= λ legacy. ok (splice 0x09 legacy named))

  -- CCompilerPanel.to_bytes
  unfoldable pub compiler_bytes : CCompilerPanel → Result PanelError Bytes
  unfolding byte
  compiler_bytes panel = do
    let version = splice 0 (be16 16) (replicate 0x140 0)
    flags ← put_settings c_offset c_settings panel.settings version
    inline ← signed16 panel.inlinelevel
    let levelled = splice 0x38 inline flags
    prefix ← pascal panel.prefixname 0x100
    with_legacy panel.prefixname (splice 0x40 prefix levelled)

  -- the target of the optimizer as a number
  abbrev pub target_of : Choice → Result PanelError ℤ
  target_of (number n) = ok n
  target_of (word name) =
      or_raise (find (casefold name) (("speed", pos 0) ∷ ("size", pos 1) ∷ [])) unknown_target

  -- PPCGlobalOptimizerPanel.to_bytes
  unfoldable pub optimizer_bytes : PpcGlobalOptimizerPanel → Result PanelError Bytes
  unfolding byte
  optimizer_bytes panel = do
    level ← level_byte panel.optimizationlevel
    chosen ← target_of panel.optfor
    target ← byte chosen
    raise_if (ltb 1 target) target_range
    ok ((0 ∷ 1 ∷ level ∷ target ∷ []) ++ replicate 8 0)
