-- ===== src/Flags/Commands.antt =====
-- cli/flags.py: the flags that take effect, and what their operands may be.
use Prim.Native.String.{String}
use cwhost.Base.{ℕ, Option, none, some, List, [], ◌∷◌, if◌then◌else◌}
use cwhost.Base.Int.{ℤ, pos, negsuc}
use cwhost.Base.Dict.{lookup}
use cwhost.Base.Result.{Result, ok, err, or_raise, ◌>>=◌}
use cwhost.Base.Text.{Tables, starts_with, from, behind, find}
use cwhost.Panels.{
  CSetting, WSetting, assigned, c_offset, w_offset, cplusplus, checkprotos, arm, ansistrict,
  mpwcnewline, dontreusestrings, poolstrings, dontinline, autoinline, ecplusplus, objective_c,
  defer_codegen, c99, bottomupinline, illpragma, emptydecl, possunwant, unusedvar, unusedarg,
  extracomma, pedantic, warningerrors, hidevirtual, implicitconv, notinlined, structclass,
}
use cwhost.Panels.Compiler.{number, word}
use cwhost.Panels.CodeGen.{Panels, GSetting, g_offset, tracebacks, function_alignments}

-- One constructor for each `raise ValueError`; `bad_int` is that of `int`.
pub data FlagError : Type 0 where
  missing_operand on_off_value unknown_warning unknown_dialect unknown_pragma char_kind enum_kind :
      FlagError
  strings_kind inline_kind opt_kind traceback_kind align_kind bad_int : FlagError

-- the integer fields that flags set
pub data Field : Type 0 where
  front : CSetting → Field
  warn : WSetting → Field
  gen : GSetting → Field
  inline_level opt_level opt_for function_align : Field

-- the check of -function-align
abbrev pub alignment_of : ℤ → Result FlagError ℤ
alignment_of (pos n) = or_raise (lookup n function_alignments) align_kind >>= λ _. ok (pos n)
alignment_of (negsuc _) = err align_kind

-- setattr(panel, field, value)
abbrev pub assign : Field → ℤ → Panels → Panels
assign (front f) v p = record p {
  compiler = record p.compiler { settings = assigned c_offset f v p.compiler.settings };
}
assign (warn f) v p = record p { warnings = assigned w_offset f v p.warnings }
assign (gen f) v p = record p {
  codegen = record p.codegen { settings = assigned g_offset f v p.codegen.settings };
}
assign inline_level v p = record p { compiler = record p.compiler { inlinelevel = v } }
assign opt_level v p = record p { optimizer = record p.optimizer { optimizationlevel = v } }
assign opt_for v p = record p { optimizer = record p.optimizer { optfor = number v } }
assign function_align v p = record p { codegen = record p.codegen { function_align = v } }

abbrev pub assign_all : List (Field × ℤ) → Panels → Panels
assign_all [] p = p
assign_all ((f, v) ∷ rest) p = assign_all rest (assign f v p)

pub data Command : Type 0 where
  constant : List (Field × ℤ) → Command
  switch : Field → Command
  choice : List (String × List (Field × ℤ)) → FlagError → Command
  pragma inline warning opt align processor traceback aligned ansi : Command

abbrev pub dialect : ℤ → ℤ → ℤ → ℤ → List (Field × ℤ)
dialect cpp ec objc c99_on =
    (front cplusplus, cpp)
    ∷ (front ecplusplus, ec)
    ∷ (front objective_c, objc)
    ∷ (front c99, c99_on)
    ∷ []

abbrev pub dialects : List (String × List (Field × ℤ))
dialects =
    ("c++", dialect (pos 1) (pos 0) (pos 0) (pos 0))
    ∷ ("cpp", dialect (pos 1) (pos 0) (pos 0) (pos 0))
    ∷ ("cxx", dialect (pos 1) (pos 0) (pos 0) (pos 0))
    ∷ ("c", dialect (pos 0) (pos 0) (pos 0) (pos 0))
    ∷ ("ansi-c", dialect (pos 0) (pos 0) (pos 0) (pos 0))
    ∷ ("ec++", dialect (pos 1) (pos 1) (pos 0) (pos 0))
    ∷ ("ecpp", dialect (pos 1) (pos 1) (pos 0) (pos 0))
    ∷ ("objc", dialect (pos 0) (pos 0) (pos 1) (pos 0))
    ∷ ("objective-c", dialect (pos 0) (pos 0) (pos 1) (pos 0))
    ∷ ("objective_c", dialect (pos 0) (pos 0) (pos 1) (pos 0))
    ∷ ("c99", dialect (pos 0) (pos 0) (pos 0) (pos 1))
    ∷ []

abbrev pub pragmas : List (String × CSetting)
pragmas =
    ("arm_conform", arm)
    ∷ ("require_prototypes", checkprotos)
    ∷ ("ansi_strict", ansistrict)
    ∷ ("mpwc_newline", mpwcnewline)
    ∷ []

abbrev pub strings_kinds : List (String × List (Field × ℤ))
strings_kinds =
    ("noreuse", (front dontreusestrings, pos 1) ∷ [])
    ∷ ("reuse", (front dontreusestrings, pos 0) ∷ [])
    ∷ ("pool", (front poolstrings, pos 1) ∷ [])
    ∷ ("nopool", (front poolstrings, pos 0) ∷ [])
    ∷ []

abbrev pub inline_kinds : List (String × List (Field × ℤ))
inline_kinds =
    ("none", (front dontinline, pos 1) ∷ (front autoinline, pos 0) ∷ [])
    ∷ ("off", (front dontinline, pos 1) ∷ (front autoinline, pos 0) ∷ [])
    ∷ ("auto", (front dontinline, pos 0) ∷ (front autoinline, pos 1) ∷ [])
    ∷ ("noauto", (front dontinline, pos 0) ∷ (front autoinline, pos 0) ∷ [])
    ∷ ("deferred", (front defer_codegen, pos 1) ∷ [])
    ∷ ("defer", (front defer_codegen, pos 1) ∷ [])
    ∷ ("bottomup", (front bottomupinline, pos 1) ∷ [])
    ∷ ("nobottomup", (front bottomupinline, pos 0) ∷ [])
    ∷ ("no-bottomup", (front bottomupinline, pos 0) ∷ [])
    ∷ []

abbrev pub opt_kinds : List (String × List (Field × ℤ))
opt_kinds =
    ("off", (opt_level, pos 0) ∷ [])
    ∷ ("none", (opt_level, pos 0) ∷ [])
    ∷ ("on", (opt_level, pos 1) ∷ [])
    ∷ ("all", (opt_level, pos 4) ∷ [])
    ∷ ("space", (opt_for, pos 1) ∷ [])
    ∷ ("size", (opt_for, pos 1) ∷ [])
    ∷ ("speed", (opt_for, pos 0) ∷ [])
    ∷ []

-- the aliases of _set_warning
abbrev pub warnings : List (String × WSetting)
warnings =
    ("illpragma", illpragma)
    ∷ ("illpragmas", illpragma)
    ∷ ("pragmas", illpragma)
    ∷ ("emptydecl", emptydecl)
    ∷ ("possible", possunwant)
    ∷ ("possunwant", possunwant)
    ∷ ("unwanted", possunwant)
    ∷ ("unusedvar", unusedvar)
    ∷ ("unusedarg", unusedarg)
    ∷ ("extracomma", extracomma)
    ∷ ("comma", extracomma)
    ∷ ("pedantic", pedantic)
    ∷ ("extended", pedantic)
    ∷ ("iserror", warningerrors)
    ∷ ("error", warningerrors)
    ∷ ("hidevirtual", hidevirtual)
    ∷ ("hiddenvirtual", hidevirtual)
    ∷ ("implicitconv", implicitconv)
    ∷ ("notinlined", notinlined)
    ∷ ("structclass", structclass)
    ∷ []

abbrev pub on_off_values : List (String × ℤ)
on_off_values =
    ("on", pos 1)
    ∷ ("yes", pos 1)
    ∷ ("true", pos 1)
    ∷ ("1", pos 1)
    ∷ ("off", pos 0)
    ∷ ("no", pos 0)
    ∷ ("false", pos 0)
    ∷ ("0", pos 0)
    ∷ []

module _ (t : Tables) where
  open t use {casefold, int_of}

  -- _onoff
  abbrev pub on_off : String → Result FlagError ℤ
  on_off value = or_raise (find (casefold value) on_off_values) on_off_value

  abbrev pub chosen :
      List (String × List (Field × ℤ)) → FlagError → String → Panels → Result FlagError Panels
  chosen kinds e value p = or_raise (find value kinds) e >>= λ fields. ok (assign_all fields p)

  -- int(text)
  abbrev pub int : String → Result FlagError ℤ
  int text = or_raise (int_of text) bad_int

  -- a name without the prefix that negates it, and the value to set
  abbrev pub negated : String → ℕ → String → String × ℤ
  negated prefix n value =
      if starts_with (casefold value) prefix then (from n value, pos 0) else (value, pos 1)

  -- the digits of -opt's level
  abbrev pub level_text : String → String
  level_text value = elim (behind b'=' value) [ some raw ↦ raw | none ↦ from 5 value ]

  -- the digits behind `level=`
  abbrev pub inline_text : Option String → String
  inline_text none = ""
  inline_text (some raw) = raw

  -- A flag's branch, on its operand.
  unfoldable pub operate : Command → String → Panels → Result FlagError Panels
  operate (constant fields) value p = ok (assign_all fields p)
  operate ansi value p = ok p
  operate (switch f) value p = on_off value >>= λ v. ok (assign f v p)
  operate (choice kinds e) value p = chosen kinds e (casefold value) p
  operate pragma value p =
      let (name, v) = negated "no-" 3 value in
      or_raise (find (casefold name) pragmas) unknown_pragma >>= λ f. ok (assign (front f) v p)
  operate inline value p =
      if starts_with (casefold value) "level="
      then (int (inline_text (behind b'=' (casefold value))) >>= λ n.
          ok (assign_all ((inline_level, n) ∷ (front dontinline, pos 0) ∷ []) p))
      else chosen inline_kinds inline_kind (casefold value) p
  operate warning value p =
      let (name, v) = negated "no" 2 value in
      or_raise (find (casefold name) warnings) unknown_warning >>= λ f. ok (assign (warn f) v p)
  operate opt value p =
      if starts_with (casefold value) "level"
      then (int (level_text (casefold value)) >>= λ n. ok (assign opt_level n p))
      else chosen opt_kinds opt_kind (casefold value) p
  operate align value p =
      ok (record p { codegen = record p.codegen { structalignment = word (casefold value) } })
  operate processor value p =
      ok (record p { codegen = record p.codegen { processor = word value } })
  operate traceback value p = or_raise (find (casefold value) tracebacks) traceback_kind >>= λ _.
      ok (record p { codegen = record p.codegen { tracebacktables = word (casefold value) } })
  operate aligned value p =
      int value >>= λ n. alignment_of n >>= λ v. ok (assign function_align v p)
