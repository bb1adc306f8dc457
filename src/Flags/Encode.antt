-- ===== src/Flags/Encode.antt =====
-- cli/flags.py and panels.py together: the panels of an accepted command line are encoded.
use Prim.Native.String.{String}
use text.Mathlib.Text.{◌==◌ as str_eq}
use cwhost.Base.{
  ℕ, ◌-◌, ◌≤◌, ◌≡◌, refl, false, some, List, ◌∷◌, ◌++◌, length, replicate, arith, ltb, Bool-cases,
  inl, inr,
}
use cwhost.Base.Result.{IsOk, ok}
use cwhost.Base.Bytes.{Bytes, be16}
use cwhost.Base.Text.{Tables}
use cwhost.Panels.{splice, c_offset, c_settings, signed16, pascal_of, w_settings, warnings_bytes}
use cwhost.Panels.Compiler.{compiler_bytes}
use cwhost.Panels.Layout.{put_settings-ok, byte_list-ok}
use cwhost.Flags.{State, from_flags}
use cwhost.Flags.Bits.{from_flags-AllBits}

pascal_of-ok :
    (capacity : ℕ) (raw : Bytes)
    → length raw ≤ capacity - 1
    → (out : Bytes) × (pascal_of capacity raw ≡ ok out)
pascal_of-ok capacity raw h =
    let short : ltb (capacity - 1) (length raw) ≡ false = ground arith in
    (length raw ∷ (raw ++ replicate (capacity - 1 - length raw) 0), rw short refl)

module _ (t : Tables) where
  -- The Warnings panel of every accepted command line is encoded without an error.
  pub from_flags-warnings_bytes :
      (argv : List String) {s : State}
      → from_flags t argv ≡ ok s
      → IsOk (warnings_bytes s.panels.warnings)
  unfolding warnings_bytes
  from_flags-warnings_bytes argv {s} e =
      let b = from_flags-AllBits t argv e in
      let (values, q) = byte_list-ok s.panels.warnings b.in_warnings w_settings in rw q tt

  -- The Compiler panel of an accepted command line is encoded without an error where its prefix file
  -- has at most 31 bytes in MacRoman and its inline level fits 16 bits: no flag can make another of
  -- its fields wrong.
  pub from_flags-compiler_bytes :
      (argv : List String) {s : State} {raw inline : Bytes}
      → from_flags t argv ≡ ok s
      → t.mac_roman s.panels.compiler.prefixname ≡ some raw
      → length raw ≤ 31
      → signed16 s.panels.compiler.inlinelevel ≡ ok inline
      → IsOk (compiler_bytes t s.panels.compiler)
  unfolding compiler_bytes
  from_flags-compiler_bytes argv {s} {raw} {inline} e name short level =
      let b = from_flags-AllBits t argv e in
      let (flags, q) =
        put_settings-ok s.panels.compiler.settings b.in_compiler c_offset c_settings
          (splice 0 (be16 16) (replicate 0x140 0)) in
      let (prefix, q') = pascal_of-ok 0x100 raw (omega arith) in
      let (legacy, q'') = pascal_of-ok 0x20 raw (omega arith) in
      elim (Bool-cases (str_eq s.panels.compiler.prefixname "")) [
        | inl empty ↦ rw (q, level, name, q', empty) tt
        | inr filled ↦ rw (q, level, name, q', filled, q'') tt
      ]
