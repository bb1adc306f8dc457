-- ===== src/Flags/Settings.antt =====
-- cli/flags.py and panels.py together: assignments of 0 and 1 to byte settings.
use Prim.Native.String.{String}
use text.Mathlib.Text.{◌==◌ as str_eq}
use cwhost.Base.{
  ℕ, ◌≡◌, refl, ap, ◌∙◌, Bool, true, ◌&&◌, some, List, [], ◌∷◌, ◌==◌, arith, Bool-cases, inl, inr,
}
use cwhost.Base.Int.{ℤ}
use cwhost.Base.Text.{find}
use cwhost.Panels.{
  CSetting, WSetting, assigned, c_offset, w_offset, c_default, w_default, cplusplus, mpwcnewline,
  wchar_type, bottomupinline, warningerrors, implicitconv, notinlined,
}
use cwhost.Panels.CodeGen.{
  Panels, GSetting, g_offset, g_default, readonlystrings, tocdata, fpcontract, schedule, peephole,
}
use cwhost.Panels.Layout.{is_bit}
use cwhost.Flags.Table.{ansi_fields}
use cwhost.Flags.Commands.{
  Command, constant, choice, Field, front, warn, gen, inline_level, opt_level, opt_for,
  function_align, assign, assign_all,
}

-- every byte setting of the three panels is 0 or 1
pub record AllBits (p : Panels) : Type 0 where
  pub in_compiler : (s : CSetting) → is_bit (p.compiler.settings s) ≡ true
  pub in_warnings : (s : WSetting) → is_bit (p.warnings s) ≡ true
  pub in_codegen : (s : GSetting) → is_bit (p.codegen.settings s) ≡ true

-- a byte setting is only set to 0 or 1
abbrev pub field_ok : Field × ℤ → Bool
field_ok (front _, v) = is_bit v
field_ok (warn _, v) = is_bit v
field_ok (gen _, v) = is_bit v
field_ok (_, v) = true

abbrev pub fields_ok : List (Field × ℤ) → Bool
fields_ok [] = true
fields_ok (f ∷ rest) = field_ok f && fields_ok rest

abbrev pub table_ok : {A : Type 0} → (A → Bool) → List (String × A) → Bool
table_ok test [] = true
table_ok test ((_, a) ∷ rest) = test a && table_ok test rest

-- a switch, too, is of a byte setting: it gets 0 or 1 in any case
abbrev pub command_ok : Command → Bool
command_ok (constant fields) = fields_ok fields
command_ok (choice kinds _) = table_ok fields_ok kinds
command_ok _ = true

pub find-ok :
    {A : Type 0} (test : A → Bool) (key : String) (table : List (String × A)) {a : A}
    → table_ok test table ≡ true
    → find key table ≡ some a
    → test a ≡ true
find-ok test key [] h e = cc
find-ok test key ((other, b) ∷ rest) {a} h e = elim (Bool-cases (str_eq other key)) [
  | inl here ↦ let same : a ≡ b = ground (arith, e, here) in ap test same ∙ ground (arith, h)
  | inr there ↦ find-ok test key rest (ground (arith, h)) (ground (arith, e, there))
]

pub assigned-bit :
    {S : Type 0} (offset : S → ℕ) (f : S) (v : ℤ) (settings : S → ℤ)
    → is_bit v ≡ true
    → ((s : S) → is_bit (settings s) ≡ true)
    → (s : S) → is_bit (assigned offset f v settings s) ≡ true
assigned-bit offset f v settings h k s = elim (Bool-cases (offset f == offset s)) [
  | inl here ↦ rw here h
  | inr there ↦ rw there (k s)
]

pub AllBits-assign :
    (f : Field) (v : ℤ) (p : Panels) → field_ok (f, v) ≡ true → AllBits p → AllBits (assign f v p)
AllBits-assign (front f) v p h b = record {
  in_compiler = assigned-bit c_offset f v p.compiler.settings h b.in_compiler;
  in_warnings = b.in_warnings;
  in_codegen = b.in_codegen;
}
AllBits-assign (warn f) v p h b = record {
  in_compiler = b.in_compiler;
  in_warnings = assigned-bit w_offset f v p.warnings h b.in_warnings;
  in_codegen = b.in_codegen;
}
AllBits-assign (gen f) v p h b = record {
  in_compiler = b.in_compiler;
  in_warnings = b.in_warnings;
  in_codegen = assigned-bit g_offset f v p.codegen.settings h b.in_codegen;
}
AllBits-assign inline_level v p h b = record {
  in_compiler = b.in_compiler;
  in_warnings = b.in_warnings;
  in_codegen = b.in_codegen;
}
AllBits-assign opt_level v p h b = record {
  in_compiler = b.in_compiler;
  in_warnings = b.in_warnings;
  in_codegen = b.in_codegen;
}
AllBits-assign opt_for v p h b = record {
  in_compiler = b.in_compiler;
  in_warnings = b.in_warnings;
  in_codegen = b.in_codegen;
}
AllBits-assign function_align v p h b = record {
  in_compiler = b.in_compiler;
  in_warnings = b.in_warnings;
  in_codegen = b.in_codegen;
}

pub AllBits-assign_all :
    (fields : List (Field × ℤ)) (p : Panels)
    → fields_ok fields ≡ true
    → AllBits p
    → AllBits (assign_all fields p)
AllBits-assign_all [] p h b = b
AllBits-assign_all ((f, v) ∷ rest) p h b =
    AllBits-assign_all rest (assign f v p) (ground (arith, h))
      (AllBits-assign f v p (ground (arith, h)) b)

pub field_ok-bit : (f : Field) (v : ℤ) → is_bit v ≡ true → field_ok (f, v) ≡ true
field_ok-bit (front f) v h = h
field_ok-bit (warn f) v h = h
field_ok-bit (gen f) v h = h
field_ok-bit inline_level v h = refl
field_ok-bit opt_level v h = refl
field_ok-bit opt_for v h = refl
field_ok-bit function_align v h = refl

pub ansi_fields-ok : (v : ℤ) → is_bit v ≡ true → fields_ok (ansi_fields v) ≡ true
ansi_fields-ok v h = rw h refl

-- the defaults: each default is 1 or 0
pub default_c : (f : CSetting) → is_bit (c_default f) ≡ true
default_c cplusplus = refl
default_c mpwcnewline = refl
default_c wchar_type = refl
default_c bottomupinline = refl
default_c _ = refl

pub default_w : (f : WSetting) → is_bit (w_default f) ≡ true
default_w warningerrors = refl
default_w implicitconv = refl
default_w notinlined = refl
default_w _ = refl

pub default_g : (f : GSetting) → is_bit (g_default f) ≡ true
default_g readonlystrings = refl
default_g tocdata = refl
default_g fpcontract = refl
default_g schedule = refl
default_g peephole = refl
default_g _ = refl
