-- ===== src/Flags/Table.antt =====
-- cli/flags.py: the chain of tests on a flag in from_flags, as a table from flags to commands.
use Prim.Native.String.{String}
use cwhost.Base.{ℕ, List, [], ◌∷◌}
use cwhost.Base.Int.{ℤ, pos}
use cwhost.Panels.{
  checkprotos, trigraphs, onlystdkeywords, enumsalwaysint, mpwpointerstyle, ansistrict, mpwcnewline,
  wchar_type, enableexceptions, use_rtti, unsignedchars, booltruefalse, templateparser, illpragma,
  emptydecl, possunwant, unusedvar, unusedarg, extracomma, pedantic, warningerrors, hidevirtual,
  implicitconv, notinlined, structclass,
}
use cwhost.Panels.CodeGen.{
  readonlystrings, tocdata, profiler, fpcontract, schedule, peephole, altivec, vectortocdata,
  poolconst, volatileasm, strict_ieee_fp, genfsel, orderedfpcmp, altivec_move_block, largetoc,
  linkerpoolsstrings,
}
use cwhost.Flags.Commands.{
  Field, front, warn, gen, Command, constant, switch, choice, pragma, inline, warning, opt, align,
  processor, traceback, aligned, ansi, dialects, strings_kinds, unknown_dialect, char_kind,
  enum_kind, strings_kind,
}

-- the fields of -wall
abbrev pub all_warnings : List (Field × ℤ)
all_warnings =
    (warn illpragma, pos 1)
    ∷ (warn emptydecl, pos 1)
    ∷ (warn possunwant, pos 1)
    ∷ (warn unusedvar, pos 1)
    ∷ (warn unusedarg, pos 1)
    ∷ (warn extracomma, pos 1)
    ∷ (warn pedantic, pos 1)
    ∷ (warn warningerrors, pos 1)
    ∷ (warn hidevirtual, pos 1)
    ∷ (warn implicitconv, pos 1)
    ∷ (warn notinlined, pos 1)
    ∷ (warn structclass, pos 1)
    ∷ []

abbrev pub ansi_fields : ℤ → List (Field × ℤ)
ansi_fields enabled =
    (front onlystdkeywords, enabled)
    ∷ (front enumsalwaysint, enabled)
    ∷ (front ansistrict, enabled)
    ∷ []

-- a flag without an operand that sets one field
abbrev pub sets : Field → ℕ → Command
sets f v = constant ((f, pos v) ∷ [])

-- the tests of the chain in `from_flags` from -strings on, and the tables of their branches
abbrev later_commands : List (String × Command)
later_commands =
    ("-strings", choice strings_kinds strings_kind)
    ∷ ("-inline", inline)
    ∷ ("-w", warning)
    ∷ ("-warning", warning)
    ∷ ("-wall", constant all_warnings)
    ∷ ("-werror", sets (warn warningerrors) 1)
    ∷ ("-wunused", constant ((warn unusedvar, pos 1) ∷ (warn unusedarg, pos 1) ∷ []))
    ∷ ("-opt", opt)
    ∷ ("-align", align)
    ∷ ("-proc", processor)
    ∷ ("-processor", processor)
    ∷ ("-target", processor)
    ∷ ("-traceback", traceback)
    ∷ ("-rostr", sets (gen readonlystrings) 1)
    ∷ ("-readonlystrings", sets (gen readonlystrings) 1)
    ∷ ("-fwritable-strings", sets (gen readonlystrings) 0)
    ∷ ("-tocdata", constant ((gen tocdata, pos 1) ∷ (gen vectortocdata, pos 1) ∷ []))
    ∷ ("-notocdata", constant ((gen tocdata, pos 0) ∷ (gen vectortocdata, pos 0) ∷ []))
    ∷ ("-no-tocdata", constant ((gen tocdata, pos 0) ∷ (gen vectortocdata, pos 0) ∷ []))
    ∷ ("-schedule", sets (gen schedule) 1)
    ∷ ("-fschedule-insns", sets (gen schedule) 1)
    ∷ ("-noschedule", sets (gen schedule) 0)
    ∷ ("-fno-schedule-insns", sets (gen schedule) 0)
    ∷ ("-fpeephole", sets (gen peephole) 1)
    ∷ ("-fno-peephole", sets (gen peephole) 0)
    ∷ ("-function-align", aligned)
    ∷ ("-funcalign", aligned)
    ∷ ("-compilerpoolsstrings", sets (gen poolconst) 1)
    ∷ ("-nocompilerpoolsstrings", sets (gen poolconst) 0)
    ∷ ("-relax_ieee", sets (gen strict_ieee_fp) 0)
    ∷ ("-relax-ieee", sets (gen strict_ieee_fp) 0)
    ∷ ("-no-relax_ieee", sets (gen strict_ieee_fp) 1)
    ∷ ("-no-relax-ieee", sets (gen strict_ieee_fp) 1)
    ∷ []

-- all tests of the chain
abbrev pub commands : List (String × Command)
commands =
    ("-dialect", choice dialects unknown_dialect)
    ∷ ("-lang", choice dialects unknown_dialect)
    ∷ ("-requireprotos", sets (front checkprotos) 1)
    ∷ ("-relax_pointers", sets (front mpwpointerstyle) 1)
    ∷ ("-flag", pragma)
    ∷ ("-trigraphs", switch (front trigraphs))
    ∷ ("-stdkeywords", switch (front onlystdkeywords))
    ∷ ("-wchar_t", switch (front wchar_type))
    ∷ ("-cpp_exceptions", switch (front enableexceptions))
    ∷ ("-rtti", switch (front use_rtti))
    ∷ ("-bool", switch (front booltruefalse))
    ∷ ("-iso_templates", switch (front templateparser))
    ∷ ("-profile", switch (gen profiler))
    ∷ ("-fp_contract", switch (gen fpcontract))
    ∷ ("-vector", switch (gen altivec))
    ∷ ("-volatileasm", switch (gen volatileasm))
    ∷ ("-strict_ieee", switch (gen strict_ieee_fp))
    ∷ ("-gen-fsel", switch (gen genfsel))
    ∷ ("-ordered-fp-compares", switch (gen orderedfpcmp))
    ∷ ("-altivec_move_block", switch (gen altivec_move_block))
    ∷ ("-largetoc", switch (gen largetoc))
    ∷ ("-linkerpoolsstrings", switch (gen linkerpoolsstrings))
    ∷ ("-strict", switch (front ansistrict))
    ∷ ("-mapcr", switch (front mpwcnewline))
    ∷ ("-nomapcr", sets (front mpwcnewline) 0)
    ∷ ("-no-mapcr", sets (front mpwcnewline) 0)
    ∷ (
      "-char",
      choice
          (("signed", (front unsignedchars, pos 0) ∷ [])
            ∷ ("unsigned", (front unsignedchars, pos 1) ∷ [])
            ∷ [])
          char_kind,
    )
    ∷ (
      "-enum",
      choice
          (("int", (front enumsalwaysint, pos 1) ∷ [])
            ∷ ("min", (front enumsalwaysint, pos 0) ∷ [])
            ∷ [])
          enum_kind,
    )
    ∷ ("-ansi", ansi)
    ∷ later_commands
