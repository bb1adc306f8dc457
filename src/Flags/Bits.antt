-- ===== src/Flags/Bits.antt =====
-- cli/flags.py and panels.py together: what the command line sets can be encoded.
use Prim.Native.String.{String}
use text.Mathlib.Text.{◌==◌ as str_eq}
use cwhost.Base.{
  ℕ, ◌≡◌, refl, Bool, true, Option, none, some, List, [], ◌∷◌, arith, Bool-cases, inl, inr,
}
use cwhost.Base.Int.{ℤ, pos}
use cwhost.Base.Result.{ok, or_raise, ◌>>=◌, >>=-eq-ok, or_raise-eq-ok}
use cwhost.Base.Text.{Tables, find, starts_with, behind}
use cwhost.Panels.{dontinline}
use cwhost.Panels.CodeGen.{Panels, defaults, tracebacks}
use cwhost.Panels.Layout.{is_bit}
use cwhost.Flags.Table.{commands, ansi_fields}
use cwhost.Flags.Commands.{
  FlagError, Command, constant, switch, choice, pragma, inline, warning, opt, align, processor,
  traceback, aligned, ansi, Field, front, warn, inline_level, opt_level, function_align, assign,
  assign_all, on_off, on_off_value, on_off_values, chosen, inline_kinds, opt_kinds, inline_kind,
  opt_kind, operate, unknown_pragma, unknown_warning, pragmas, warnings, negated, int, inline_text,
  level_text, traceback_kind, alignment_of,
}
use cwhost.Flags.{State, obey, handle, run, from_flags, ansi_operand, ansi_enabled}
use cwhost.Flags.Settings.{
  fields_ok, table_ok, command_ok, find-ok, AllBits-assign, AllBits-assign_all, field_ok-bit,
  ansi_fields-ok, default_c, default_w, default_g, AllBits,
}

module _ (t : Tables) where
  open t use {casefold}

  on_off-bit : (value : String) {v : ℤ} → on_off t value ≡ ok v → is_bit v ≡ true
  on_off-bit value e =
      find-ok is_bit (casefold value) on_off_values refl
        (or_raise-eq-ok (find (casefold value) on_off_values) on_off_value e)

  ansi_enabled-bit : (value : String) {v : ℤ} → ansi_enabled t value ≡ ok v → is_bit v ≡ true
  ansi_enabled-bit value {v} e = elim (Bool-cases (str_eq value "strict")) [
    | inl strict ↦ let same : v ≡ pos 1 = ground (arith, e, strict) in rw same refl
    | inr other ↦ on_off-bit value (rw other at e)
  ]

  negated-bit :
      (prefix : String) (n : ℕ) (value : String) → is_bit (negated t prefix n value).1 ≡ true
  negated-bit prefix n value = elim (Bool-cases (starts_with (casefold value) prefix)) [
    | inl negative ↦ rw negative refl
    | inr plain ↦ rw plain refl
  ]

  AllBits-chosen :
      (kinds : List (String × List (Field × ℤ))) (e : FlagError) (value : String) (p : Panels)
      {p' : Panels}
      → table_ok fields_ok kinds ≡ true
      → chosen t kinds e value p ≡ ok p'
      → AllBits p
      → AllBits p'
  AllBits-chosen kinds e value p {p'} h q b =
      let (fields, q0, q1) = >>=-eq-ok (or_raise (find value kinds) e) _ q in
      let same : p' ≡ assign_all fields p = cc in
      rw same (
        AllBits-assign_all fields p
          (find-ok fields_ok value kinds h (or_raise-eq-ok (find value kinds) e q0)) b)

  AllBits-codegen :
      (p p' : Panels)
      → p'.compiler ≡ p.compiler
      → p'.warnings ≡ p.warnings
      → p'.codegen.settings ≡ p.codegen.settings
      → AllBits p
      → AllBits p'
  AllBits-codegen p p' c w g b = record {
    in_compiler = rw c b.in_compiler;
    in_warnings = rw w b.in_warnings;
    in_codegen = rw g b.in_codegen;
  }

  AllBits-operate :
      (c : Command) (value : String) (p : Panels) {p' : Panels}
      → command_ok c ≡ true
      → operate t c value p ≡ ok p'
      → AllBits p
      → AllBits p'
  unfolding operate
  AllBits-operate (constant fields) value p {p'} h e b =
      let same : p' ≡ assign_all fields p = cc in rw same (AllBits-assign_all fields p h b)
  AllBits-operate ansi value p {p'} h e b = let same : p' ≡ p = cc in rw same b
  AllBits-operate (switch f) value p {p'} h e b =
      let (v, e0, e1) = >>=-eq-ok (on_off t value) _ e in
      let same : p' ≡ assign f v p = cc in
      rw same (AllBits-assign f v p (field_ok-bit f v (on_off-bit value e0)) b)
  AllBits-operate (choice kinds x) value p h e b = AllBits-chosen kinds x (casefold value) p h e b
  AllBits-operate pragma value p {p'} h e b =
      let (name, v) = negated t "no-" 3 value in
      let (f, _, e1) = >>=-eq-ok (or_raise (find (casefold name) pragmas) unknown_pragma) _ e in
      let same : p' ≡ assign (front f) v p = cc in
      rw same (AllBits-assign (front f) v p (negated-bit "no-" 3 value) b)
  AllBits-operate inline value p {p'} h e b =
      elim (Bool-cases (starts_with (casefold value) "level=")) [
        | inl level ↦
            let (n, _, e1) =
              >>=-eq-ok (int t (inline_text t (behind b'=' (casefold value)))) _ (rw level at e) in
            let same : p' ≡ assign_all ((inline_level, n) ∷ (front dontinline, pos 0) ∷ []) p =
              cc in
            rw same
              (AllBits-assign_all ((inline_level, n) ∷ (front dontinline, pos 0) ∷ []) p refl b)
        | inr kind ↦
            AllBits-chosen inline_kinds inline_kind (casefold value) p refl (rw kind at e) b
      ]
  AllBits-operate warning value p {p'} h e b =
      let (name, v) = negated t "no" 2 value in
      let (f, _, e1) = >>=-eq-ok (or_raise (find (casefold name) warnings) unknown_warning) _ e in
      let same : p' ≡ assign (warn f) v p = cc in
      rw same (AllBits-assign (warn f) v p (negated-bit "no" 2 value) b)
  AllBits-operate opt value p {p'} h e b =
      elim (Bool-cases (starts_with (casefold value) "level")) [
        | inl level ↦
            let (n, _, e1) = >>=-eq-ok (int t (level_text t (casefold value))) _ (rw level at e) in
            let same : p' ≡ assign opt_level n p = cc in
            rw same (AllBits-assign opt_level n p refl b)
        | inr kind ↦ AllBits-chosen opt_kinds opt_kind (casefold value) p refl (rw kind at e) b
      ]
  AllBits-operate align value p {p'} h e b =
      AllBits-codegen p p' (ground (arith, e)) (ground (arith, e)) (ground (arith, e)) b
  AllBits-operate processor value p {p'} h e b =
      AllBits-codegen p p' (ground (arith, e)) (ground (arith, e)) (ground (arith, e)) b
  AllBits-operate traceback value p {p'} h e b =
      let (_, _, e1) = >>=-eq-ok (or_raise (find (casefold value) tracebacks) traceback_kind) _ e in
      AllBits-codegen p p' (ground (arith, e1)) (ground (arith, e1)) (ground (arith, e1)) b
  AllBits-operate aligned value p {p'} h e b =
      let (n, _, e1) = >>=-eq-ok (int t value) _ e in
      let (v, _, e2) = >>=-eq-ok (alignment_of n) _ e1 in
      let same : p' ≡ assign function_align v p = cc in
      rw same (AllBits-assign function_align v p refl b)

  AllBits-obey :
      (c : Option Command) (flag : String) (operand : Option String) (s : State) {r : Bool × State}
      → ((k : Command) → c ≡ some k → command_ok k ≡ true)
      → obey t c flag operand s ≡ ok r
      → AllBits s.panels
      → AllBits r.1.panels
  AllBits-obey none flag operand s {r} h e b =
      let same : r.1.panels ≡ s.panels = ground (arith, e) in rw same b
  AllBits-obey (some c) flag operand s {r} h e b = go c operand (h c refl) e
    where
      taken :
          (c : Command) (value : String)
          → command_ok c ≡ true
          → (operate t c value s.panels >>= λ p. ok (true, record s { panels = p })) ≡ ok r
          → AllBits r.1.panels
      taken c value k q =
          let (p, q0, q1) = >>=-eq-ok (operate t c value s.panels) _ q in
          let same : r.1.panels ≡ p = ground (arith, q1) in
          rw same (AllBits-operate c value s.panels k q0 b)

      go :
          (c : Command) (operand : Option String)
          → command_ok c ≡ true
          → obey t (some c) flag operand s ≡ ok r
          → AllBits r.1.panels
      go (constant fields) operand k q =
          let same : r.1.panels ≡ assign_all fields s.panels = ground (arith, q) in
          rw same (AllBits-assign_all fields s.panels k b)
      go ansi operand k q =
          let (v, q0, q1) = >>=-eq-ok (ansi_enabled t (ansi_operand operand).0) _ q in
          let same : r.1.panels ≡ assign_all (ansi_fields v) s.panels = ground (arith, q1) in
          rw same (
            AllBits-assign_all (ansi_fields v) s.panels
              (ansi_fields-ok v (ansi_enabled-bit (ansi_operand operand).0 q0)) b)
      go c none k q = cc
      go c (some value) k q = taken c value k q

  -- every command of the table sets byte settings to 0 or 1
  commands_ok : table_ok command_ok commands ≡ true
  commands_ok = refl

  AllBits-handle :
      (flag : String) (operand : Option String) (s : State) {r : Bool × State}
      → handle t flag operand s ≡ ok r
      → AllBits s.panels
      → AllBits r.1.panels
  unfolding handle
  AllBits-handle flag operand s =
      AllBits-obey (find (casefold flag) commands) flag operand s
        (λ k. find-ok command_ok (casefold flag) commands commands_ok)

  AllBits-run :
      (argv : List String) (s : State) {s' : State}
      → run t argv s ≡ ok s'
      → AllBits s.panels
      → AllBits s'.panels
  unfolding run
  AllBits-run [] s {s'} e b = let same : s' ≡ s = cc in rw same b
  AllBits-run (flag ∷ []) s {s'} e b =
      let (r, e0, e1) = >>=-eq-ok (handle t flag none s) _ e in
      let same : s' ≡ r.1 = cc in rw same (AllBits-handle flag none s e0 b)
  AllBits-run (flag ∷ next ∷ rest) s {s'} e b =
      let (r, e0, e1) = >>=-eq-ok (handle t flag (some next) s) _ e in
      let b₁ = AllBits-handle flag (some next) s e0 b in
      elim (Bool-cases r.0) [
        | inl two ↦ AllBits-run rest r.1 (rw two at e1) b₁
        | inr one ↦ AllBits-run (next ∷ rest) r.1 (rw one at e1) b₁
      ]

  -- Whatever the arguments, where `from_flags` accepts them every byte setting of the three panels
  -- is 0 or 1.
  pub from_flags-AllBits :
      (argv : List String) {s : State} → from_flags t argv ≡ ok s → AllBits s.panels
  unfolding from_flags
  from_flags-AllBits argv e =
      AllBits-run argv (record { panels = defaults; leftovers = [] }) e
        (record {
          in_compiler = λ f. default_c f;
          in_warnings = λ f. default_w f;
          in_codegen = λ f. default_g f;
        })
