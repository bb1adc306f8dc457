-- ===== src/Panels/Records.antt =====
-- panels.py: what each encoded panel holds.
use Prim.Native.String.{String}
use text.Mathlib.Text.{◌==◌ as str_eq}
use cwhost.Base.{
  ℕ, zero, suc, ◌+◌, ◌-◌, ◌≤◌, ◌<◌, ◌≡◌, refl, ap, sym, ◌∙◌, Bool, true, ◌&&◌, List, [], ◌∷◌, ◌++◌,
  length, length-append, length-replicate, length-set, take, drop, set, get_elem?, replicate, ltb,
  ◌==◌, arith, Bool-cases, inl, inr,
}
use cwhost.Base.Int.{ℤ, pos, negsuc}
use cwhost.Base.Result.{ok, or_raise, >>=-eq-ok, ◌>>=◌}
use cwhost.Base.Bytes.{Bytes, be16, drop-add}
use cwhost.Base.Text.{Tables}
use cwhost.Panels.{
  byte, splice, put_settings, c_offset, c_settings, CCompilerPanel, signed16, pascal_of, WSetting,
  w_settings, w_offset, byte_list, warnings_bytes, not_mac_roman,
}
use cwhost.Panels.Compiler.{pascal, with_legacy, compiler_bytes}
use cwhost.Panels.CodeGen.{
  g_offset, g_settings, PpcCodeGenPanel, categorical, alignments, tracebacks, processors,
  function_alignment, codegen_bytes,
}
use cwhost.Panels.Layout.{
  length-splice, length-put_settings, put_settings-Stored, Stored, Stored-splice, clear_of, apart,
  all_above, take-put_settings, take-set, Stored-set, byte-eq, get_elem?-drop,
}

length-pascal_of :
    (capacity : ℕ) (raw : Bytes) {out : Bytes}
    → 0 < capacity
    → pascal_of capacity raw ≡ ok out
    → length out ≡ capacity
length-pascal_of capacity raw {out} p e = elim (Bool-cases (ltb (capacity - 1) (length raw))) [
  | inl long ↦ absurd (ground arith)
  | inr fits ↦
      let short : length raw ≤ capacity - 1 = ground arith in
      let made : length raw ∷ (raw ++ replicate (capacity - 1 - length raw) 0) ≡ out =
        ground arith in
      ap length (sym made)
      ∙ omega (
        arith,
        length-append {0} raw (replicate (capacity - 1 - length raw) 0),
        length-replicate {0} {A = ℕ} (capacity - 1 - length raw) 0,
      )
]

length-signed16 : (z : ℤ) {out : Bytes} → signed16 z ≡ ok out → length out ≡ 2
length-signed16 (pos n) e = ground arith
length-signed16 (negsuc n) e = ground arith

-- what stands in a record of `n` bytes: its version, and every setting at its offset
pub record Encoded {S : Type 0} (n version : ℕ) (offset : S → ℕ) (ss : List S) (settings : S → ℤ)
    (out : Bytes) : Type 0 where
  pub size : length out ≡ n
  pub versioned : take 2 out ≡ be16 version
  pub stored : Stored offset ss settings out

take-splice :
    (start : ℕ) (raw target : Bytes)
    → 2 ≤ start
    → start ≤ length target
    → take 2 (splice start raw target) ≡ take 2 target
take-splice start raw [] h l = absurd (omega arith)
take-splice start raw (a ∷ []) h l = absurd (omega arith)
take-splice zero raw (a ∷ b ∷ target) h l = absurd (omega arith)
take-splice (suc zero) raw (a ∷ b ∷ target) h l = absurd (omega arith)
take-splice (suc (suc n)) raw (a ∷ b ∷ target) h l = refl

module _ {S : Type 0} (offset : S → ℕ) where
  -- a later slice assignment that no setting lies under
  Encoded-splice :
      (n version : ℕ) (ss : List S) (settings : S → ℤ) (start width : ℕ) (raw target : Bytes)
      → 2 ≤ start
      → start + width ≤ n
      → length raw ≡ width
      → clear_of offset start width ss ≡ true
      → Encoded n version offset ss settings target
      → Encoded n version offset ss settings (splice start raw target)
  Encoded-splice n version ss settings start width raw target h l w c d = record {
    size = length-splice start raw target (omega (arith, d.size)) ∙ d.size;
    versioned = take-splice start raw target h (omega (arith, d.size)) ∙ d.versioned;
    stored =
        Stored-splice offset ss settings start raw target (omega (arith, d.size))
          (ap (λ k. clear_of offset start k ss) w ∙ c) d.stored;
  }

  -- the loop over the table, on a record that has its version
  Encoded-put_settings :
      (n version : ℕ) (ss : List S) (settings : S → ℤ) (target : Bytes) {out : Bytes}
      → length target ≡ n
      → take 2 target ≡ be16 version
      → apart offset n ss ≡ true
      → all_above offset ss ≡ true
      → put_settings offset ss settings target ≡ ok out
      → Encoded n version offset ss settings out
  Encoded-put_settings n version ss settings target l v a b e = record {
    size = length-put_settings offset ss settings target e ∙ l;
    versioned = take-put_settings offset ss settings target b e ∙ v;
    stored = put_settings-Stored offset ss settings target (ap (λ k. apart offset k ss) l ∙ a) e;
  }

module _ (t : Tables) where
  length-pascal :
      (value : String) (capacity : ℕ) {out : Bytes}
      → 0 < capacity
      → pascal t value capacity ≡ ok out
      → length out ≡ capacity
  length-pascal value capacity p e =
      let (raw, _, e1) = >>=-eq-ok (or_raise (t.mac_roman value) not_mac_roman) _ e in
      length-pascal_of capacity raw p e1

  with_legacy-Encoded :
      (panel : CCompilerPanel) (named : Bytes) {out : Bytes}
      → Encoded 0x140 16 c_offset c_settings panel.settings named
      → with_legacy t panel.prefixname named ≡ ok out
      → Encoded 0x140 16 c_offset c_settings panel.settings out
  with_legacy-Encoded panel named {out} d e = elim (Bool-cases (str_eq panel.prefixname "")) [
    | inl empty ↦ let same : out ≡ named = ground (arith, e, empty) in rw same d
    | inr filled ↦
        let kept : (pascal t panel.prefixname 0x20 >>= λ legacy. ok (splice 0x09 legacy named))
            ≡ ok out =
          rw filled at e in
        let (legacy, e1, e2) = >>=-eq-ok (pascal t panel.prefixname 0x20) _ kept in
        let same : out ≡ splice 0x09 legacy named = cc in
        rw same (
          Encoded-splice c_offset 0x140 16 c_settings panel.settings 0x09 0x20 legacy named
            (omega arith) (omega arith) (length-pascal panel.prefixname 0x20 (omega arith) e1) refl
            d)
  ]

  -- The C/C++ Compiler record that `compiler_bytes` gives is 0x140 bytes long, has version 16, and
  -- holds each of the 25 byte settings at the setting's offset: nothing that is written later
  -- covers them.
  pub compiler_bytes-Encoded :
      (panel : CCompilerPanel) {out : Bytes}
      → compiler_bytes t panel ≡ ok out
      → Encoded 0x140 16 c_offset c_settings panel.settings out
  unfolding compiler_bytes
  compiler_bytes-Encoded panel {out} e =
      let version = splice 0 (be16 16) (replicate 0x140 0) in
      let (flags, e1, r1) =
        >>=-eq-ok (put_settings c_offset c_settings panel.settings version) _ e in
      let (inline, e2, r2) = >>=-eq-ok (signed16 panel.inlinelevel) _ r1 in
      let (prefix, e3, r3) = >>=-eq-ok (pascal t panel.prefixname 0x100) _ r2 in
      let d =
        Encoded-put_settings c_offset 0x140 16 c_settings panel.settings version refl refl refl refl
          e1 in
      let d₁ =
        Encoded-splice c_offset 0x140 16 c_settings panel.settings 0x38 2 inline flags (omega arith)
          (omega arith) (length-signed16 panel.inlinelevel e2) refl d in
      let d₂ =
        Encoded-splice c_offset 0x140 16 c_settings panel.settings 0x40 0x100 prefix
          (splice 0x38 inline flags) (omega arith) (omega arith)
          (length-pascal panel.prefixname 0x100 (omega arith) e3) refl d₁ in
      with_legacy-Encoded panel (splice 0x40 prefix (splice 0x38 inline flags)) d₂ r3

  -- The PPC CodeGen record that `codegen_bytes` gives is 0x22 bytes long, has version 7, and holds
  -- each of the 16 byte settings at the setting's offset.
  pub codegen_bytes-Encoded :
      (panel : PpcCodeGenPanel) {out : Bytes}
      → codegen_bytes t panel ≡ ok out
      → Encoded 0x22 7 g_offset g_settings panel.settings out
  unfolding codegen_bytes
  codegen_bytes-Encoded panel {out} e =
      let version = splice 0 (be16 7) (replicate 0x22 0) in
      let (a, _, r1) = >>=-eq-ok (categorical t panel.structalignment alignments) _ e in
      let (b, _, r2) = >>=-eq-ok (categorical t panel.tracebacktables tracebacks) _ r1 in
      let (c, _, r3) = >>=-eq-ok (categorical t panel.processor processors) _ r2 in
      let target = set (set (set version 0x02 a) 0x03 b) 0x04 c in
      let (flags, e4, r4) =
        >>=-eq-ok (put_settings g_offset g_settings panel.settings target) _ r3 in
      let (align, _, r5) = >>=-eq-ok (function_alignment panel.function_align) _ r4 in
      let d =
        Encoded-put_settings g_offset 0x22 7 g_settings panel.settings target refl refl refl refl
          e4 in
      let same : out ≡ set flags 0x17 align = cc in
      rw same (record {
        size = length-set flags 0x17 align ∙ d.size;
        versioned = take-set 0x17 align flags (omega arith) ∙ d.versioned;
        stored = Stored-set g_offset g_settings panel.settings 0x17 align flags refl d.stored;
      })

module _ {S : Type 0} (offset : S → ℕ) where
  -- the settings stand one behind another from `k` on
  abbrev consecutive : ℕ → List S → Bool
  consecutive k [] = true
  consecutive k (s ∷ rest) = (offset s == k) && consecutive (suc k) rest

  byte_list-Stored :
      (ss : List S) (settings : S → ℤ) (k : ℕ) (whole : Bytes) {out : Bytes}
      → byte_list ss settings ≡ ok out
      → drop k whole ≡ out
      → consecutive k ss ≡ true
      → Stored offset ss settings whole
  byte_list-Stored [] settings k whole e d c = tt
  byte_list-Stored (s ∷ rest) settings k whole {out} e d c =
      let (v, e0, e1) = >>=-eq-ok (byte (settings s)) _ e in
      let (vs, e2, e3) = >>=-eq-ok (byte_list rest settings) _ e1 in
      let made : out ≡ v ∷ vs = cc in
      let start : k + 0 ≡ offset s = ground (arith, c) in
      let next : suc k ≡ k + 1 = omega arith in
      (
        (
          v,
          byte-eq (settings s) e0,
          ap (get_elem? whole) (sym start)
              ∙ sym (get_elem?-drop k 0 whole)
              ∙ ap (λ xs. get_elem? xs 0) (d ∙ made),
        ),
        byte_list-Stored rest settings (suc k) whole e2
            (ap (λ n. drop n whole) next ∙ drop-add {0} k 1 whole ∙ ap (drop 1) (d ∙ made))
            (ground (arith, c)),
      )

length-byte_list :
    {S : Type 0} (ss : List S) (settings : S → ℤ) {out : Bytes}
    → byte_list ss settings ≡ ok out
    → length out ≡ length ss
length-byte_list [] settings {out} e = let same : out ≡ [] = cc in ap length same
length-byte_list (s ∷ rest) settings {out} e =
    let (v, e0, e1) = >>=-eq-ok (byte (settings s)) _ e in
    let (vs, e2, e3) = >>=-eq-ok (byte_list rest settings) _ e1 in
    let made : out ≡ v ∷ vs = cc in ap length made ∙ ap suc (length-byte_list rest settings e2)

-- The C/C++ Warnings record that `warnings_bytes` gives is 14 bytes long, has version 5, and holds
-- the 12 settings one behind another from the third byte on.
pub warnings_bytes-Encoded :
    (settings : WSetting → ℤ) {out : Bytes}
    → warnings_bytes settings ≡ ok out
    → Encoded 14 5 w_offset w_settings settings out
unfolding warnings_bytes
warnings_bytes-Encoded settings {out} e =
    let (vs, e0, e1) = >>=-eq-ok (byte_list w_settings settings) _ e in
    let made : out ≡ 0 ∷ 5 ∷ vs = cc in
    rw made (record {
      size = ap (λ n. suc (suc n)) (length-byte_list w_settings settings e0);
      versioned = refl;
      stored = byte_list-Stored w_offset w_settings settings 2 (0 ∷ 5 ∷ vs) e0 refl refl;
    })
