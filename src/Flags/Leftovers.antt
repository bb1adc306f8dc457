-- ===== src/Flags/Leftovers.antt =====
-- cli/flags.py: which arguments `from_flags` leaves to its caller.
use Prim.Native.String.{String}
use cwhost.Base.{
  ◌≡◌, refl, sym, ap, ◌∙◌, Bool, true, false, Option, none, some, List, [], ◌∷◌, ◌++◌, arith,
  Bool-cases, inl, inr,
}
use mathlib.Core.List.{append-nil, append_assoc}
use cwhost.Base.Result.{ok, >>=-eq-ok}
use cwhost.Base.Text.{Tables, find}
use cwhost.Panels.CodeGen.{defaults}
use cwhost.Flags.Table.{commands}
use cwhost.Flags.Commands.{Command, constant, ansi, operate}
use cwhost.Flags.{State, obey, handle, run, from_flags, ansi_operand, ansi_enabled}

-- whether a flag takes the argument behind it
abbrev pub takes_next : Option Command → Option String → Bool
takes_next none operand = false
takes_next (some (constant _)) operand = false
takes_next (some ansi) operand = (ansi_operand operand).1
takes_next (some _) operand = true

abbrev pub kept : Option Command → String → List String
kept none flag = flag ∷ []
kept (some _) flag = []

module _ (t : Tables) where
  open t use {casefold}

  abbrev pub command_of : String → Option Command
  command_of flag = find (casefold flag) commands

  -- The arguments that are no flags of the table and no operands of one: a walk that looks at no
  -- panel.
  unfoldable pub unclaimed : List String → List String
  unclaimed [] = []
  unclaimed (flag ∷ []) = kept (command_of flag) flag
  unclaimed (flag ∷ next ∷ rest) =
      kept (command_of flag) flag ++ elim (takes_next (command_of flag) (some next)) [
        | true ↦ unclaimed rest
        | false ↦ unclaimed (next ∷ rest)
      ]

  obey_lem :
      (c : Option Command) (flag : String) (operand : Option String) (s : State) {r : Bool × State}
      → obey t c flag operand s ≡ ok r
      → (r.0 ≡ takes_next c operand) × (r.1.leftovers ≡ s.leftovers ++ kept c flag)
  obey_lem none flag operand s e = (ground (arith, e), ground (arith, e))
  obey_lem (some (constant fields)) flag operand s e =
      (ground (arith, e), ground (arith, e, append-nil s.leftovers))
  obey_lem (some ansi) flag operand s e =
      let (v, _, e1) = >>=-eq-ok (ansi_enabled t (ansi_operand operand).0) _ e in
      (ground (arith, e1), ground (arith, e1, append-nil s.leftovers))
  obey_lem (some c) flag none s e = cc
  obey_lem (some c) flag (some value) s e =
      let (p, _, e1) = >>=-eq-ok (operate t c value s.panels) _ e in
      (ground (arith, e1), ground (arith, e1, append-nil s.leftovers))

  run_leftovers :
      (argv : List String) (s : State) {s' : State}
      → run t argv s ≡ ok s'
      → s'.leftovers ≡ s.leftovers ++ unclaimed argv
  unfolding run handle unclaimed
  run_leftovers [] s e = ground (arith, e, append-nil s.leftovers)
  run_leftovers (flag ∷ []) s e =
      let (r, e0, e1) = >>=-eq-ok (obey t (command_of flag) flag none s) _ e in
      ground (arith, e1, obey_lem (command_of flag) flag none s e0)
  run_leftovers (flag ∷ next ∷ rest) s {s'} e =
      let c = command_of flag in
      let (r, e0, e1) = >>=-eq-ok (obey t c flag (some next) s) _ e in
      let (taken, left) = obey_lem c flag (some next) s e0 in
      elim (Bool-cases r.0) [
        | inl two ↦
            let claimed : takes_next c (some next) ≡ true = sym taken ∙ two in
            rw claimed (
              run_leftovers rest r.1 (rw two at e1)
              ∙ ap (λ xs. xs ++ unclaimed rest) left
              ∙ append_assoc s.leftovers (kept c flag) (unclaimed rest))
        | inr one ↦
            let free : takes_next c (some next) ≡ false = sym taken ∙ one in
            rw free (
              run_leftovers (next ∷ rest) r.1 (rw one at e1)
              ∙ ap (λ xs. xs ++ unclaimed (next ∷ rest)) left
              ∙ append_assoc s.leftovers (kept c flag) (unclaimed (next ∷ rest)))
      ]

  -- Where `from_flags` accepts the arguments, the ones that it leaves over are those that the walk of
  -- `unclaimed` picks: in their order, each that is no flag of the table and no operand of a flag.
  pub from_flags_leftovers :
      (argv : List String) {s : State} → from_flags t argv ≡ ok s → s.leftovers ≡ unclaimed argv
  unfolding from_flags
  from_flags_leftovers argv = run_leftovers argv (record { panels = defaults; leftovers = [] })

  abbrev pub AllStrangers : List String → Type 0
  AllStrangers [] = Unit {0}
  AllStrangers (flag ∷ rest) = (command_of flag ≡ none) × AllStrangers rest

  run_strangers :
      (argv : List String) (s : State)
      → AllStrangers argv
      → run t argv s ≡ ok (record s { leftovers = s.leftovers ++ argv })
  unfolding run handle
  run_strangers [] s h = ap (λ xs. ok (record s { leftovers = xs })) (sym (append-nil s.leftovers))
  run_strangers (flag ∷ []) s (h, _) = rw h refl
  run_strangers (flag ∷ next ∷ rest) s (h, k) = rw h (
      run_strangers (next ∷ rest) (record s { leftovers = s.leftovers ++ flag ∷ [] }) k
      ∙ ap (λ xs. ok (record s { leftovers = xs }))
          (append_assoc s.leftovers (flag ∷ []) (next ∷ rest)))

  -- Arguments that are all unknown are accepted, all left over in their order, and the panels are the
  -- defaults.
  pub from_flags_strangers :
      (argv : List String)
      → AllStrangers argv
      → from_flags t argv ≡ ok (record { panels = defaults; leftovers = argv })
  unfolding from_flags
  from_flags_strangers argv = run_strangers argv (record { panels = defaults; leftovers = [] })
