-- ===== src/Pef/Exports/Found.antt =====
-- What PEF.exports finds: the symbols of the export table, each with its fields at their offsets.
use cwhost.Base.{
  ℕ, zero, suc, ◌+◌, ◌*◌, ◌%◌, ◌^◌, ◌≡◌, ◌≢◌, ◌∙◌, ◌<◌, ◌≤◌, ◌⊎◌, Option, none, some, [], ltb, refl,
  arith, Bool-cases, inl, inr, true,
}
use cwhost.Base.Int.{ℤ, IsSigned}
use cwhost.Base.Result.{ok, or_raise-eq-ok, >>=-eq-ok}
use cwhost.Base.Bytes.{Bytes, slice, u16_at, u32_at}
use cwhost.Base.Map.{lookup, insert, lookup-insert_self, lookup-insert_ne, bytes_eq}
use cwhost.Pef.{struct_error}
use cwhost.Pef.Container.{LoaderHeader, word, half}
use cwhost.Pef.Exports.{
  Export, Exports, signed_half, key_offset, symbols_offset, export_row, exports_from, exports,
}

signed_half-IsSigned : (n : ℕ) → n < 0x1_0000 → IsSigned 0x1_0000 n (signed_half n)
signed_half-IsSigned n less = elim (Bool-cases (ltb n 0x8000)) [
  | inl plus ↦ rw plus (refl, ground arith)
  | inr minus ↦ let half : 0x8000 ≤ n = ground arith in rw minus (omega arith, omega arith)
]

signed_half_lem : (n : ℕ) → IsSigned 0x1_0000 n (signed_half n) ⊎ (0x1_0000 ≤ n)
signed_half_lem n = elim (Bool-cases (ltb n 0x1_0000)) [
  | inl less ↦ inl (signed_half-IsSigned n (ground arith))
  | inr more ↦ inr (ground arith)
]

module _ (loader : Bytes) (header : LoaderHeader) where
  open header use {
    export_hash_offset, export_hash_table_power, exported_symbol_count, loader_strings_offset,
  }

  -- Symbol `i` of the export table. The hash table of 2^power words is followed by a key of four bytes
  -- for each symbol, the length of its name in the first two, and by the symbols of ten bytes: the
  -- name's offset among the strings in the low 24 bits of the first word, then the symbol's offset,
  -- then its section, in two's complement of 16 bits where the two bytes are bytes.
  abbrev pub IsSymbol : ℕ → Bytes → ℤ × ℕ → Type 0
  IsSymbol i name (section, offset) =
      (amount : ℕ) × (entry : ℕ) × (number : ℕ) × (u16_at loader
          (export_hash_offset + 2 ^ export_hash_table_power * 4 + i * 4)
        ≡ some amount)
      × (u32_at loader (
            export_hash_offset
            + 2 ^ export_hash_table_power * 4
            + 4 * exported_symbol_count
            + i * 10)
          ≡ some entry)
      × (name
          ≡ slice loader (loader_strings_offset + entry % 0x100_0000)
              (loader_strings_offset + entry % 0x100_0000 + amount))
      × (u32_at loader (
            export_hash_offset
            + 2 ^ export_hash_table_power * 4
            + 4 * exported_symbol_count
            + i * 10
            + 4)
          ≡ some offset)
      × (u16_at loader (
            export_hash_offset
            + 2 ^ export_hash_table_power * 4
            + 4 * exported_symbol_count
            + i * 10
            + 8)
          ≡ some number)
      × (IsSigned 0x1_0000 number section ⊎ (0x1_0000 ≤ number))

  -- symbol `i` has a name, and none of the symbols after it and before `n` has it
  abbrev pub IsLast : Bytes → ℕ → Option (ℤ × ℕ) → Type 0
  IsLast wanted n none =
      (i : ℕ) (name : Bytes) (at : ℤ × ℕ) → i < n → IsSymbol i name at → name ≢ wanted
  IsLast wanted n (some found) =
      (i : ℕ) × (i < n)
      × IsSymbol i wanted found
      × ((j : ℕ) (name : Bytes) (at : ℤ × ℕ) → i < j → j < n → IsSymbol j name at → name ≢ wanted)

  export_row-IsSymbol :
      (i : ℕ) {row : Export}
      → export_row loader header i ≡ ok row
      → IsSymbol i row.name (row.section, row.offset)
  unfolding export_row
  export_row-IsSymbol i {row = row} q =
      let keys = key_offset loader header in
      let symbols = symbols_offset loader header in
      let (amount, q0, q1) = >>=-eq-ok (half loader (keys + i * 4)) _ q in
      let (encoded, q2, q3) = >>=-eq-ok (half loader (keys + i * 4 + 2)) _ q1 in
      let (entry, q4, q5) = >>=-eq-ok (word loader (symbols + i * 10)) _ q3 in
      let (value, q6, q7) = >>=-eq-ok (word loader (symbols + i * 10 + 4)) _ q5 in
      let (number, q8, q9) = >>=-eq-ok (half loader (symbols + i * 10 + 8)) _ q7 in
      let start = loader_strings_offset + entry % 0x100_0000 in
      let e : row ≡ record {
        name = slice loader start (start + amount);
        section = signed_half number;
        offset = value;
      } =
        cc in
      rw e (
        amount,
        entry,
        number,
        or_raise-eq-ok (u16_at loader (keys + i * 4)) struct_error q0,
        or_raise-eq-ok (u32_at loader (symbols + i * 10)) struct_error q4,
        refl,
        or_raise-eq-ok (u32_at loader (symbols + i * 10 + 4)) struct_error q6,
        or_raise-eq-ok (u16_at loader (symbols + i * 10 + 8)) struct_error q8,
        signed_half_lem number,
      )

  -- a symbol has one name
  IsSymbol-name :
      (i : ℕ) (name name' : Bytes) (at at' : ℤ × ℕ)
      → IsSymbol i name at
      → IsSymbol i name' at'
      → name ≡ name'
  IsSymbol-name i name name' at at' (amount, entry, _, q0, q1, q2, _, _, _)
        (amount', entry', _, r0, r1, r2, _, _, _) =
      let same : amount ≡ amount' = cc in
      let same' : entry ≡ entry' = cc in rw (q2, r2, same, same') refl

  IsLast-suc :
      (wanted : Bytes) (n : ℕ) (found : Option (ℤ × ℕ))
      → ((name : Bytes) (at : ℤ × ℕ) → IsSymbol n name at → name ≢ wanted)
      → IsLast wanted n found
      → IsLast wanted (suc n) found
  IsLast-suc wanted n none other last = λ i name at less is. elim (Bool-cases (ltb i n)) [
    | inl before ↦ last i name at (ground arith) is
    | inr after ↦ let e : i ≡ n = ground arith in other name at (rw (← e) is)
  ]
  IsLast-suc wanted n (some found) other (i, less, is, later) = (
    i,
    omega arith,
    is,
    λ j name at more below symbol. elim (Bool-cases (ltb j n)) [
      | inl before ↦ later j name at more (ground arith) symbol
      | inr after ↦ let e : j ≡ n = ground arith in other name at (rw (← e) symbol)
    ],
  )

  -- a round keeps what the loop has found of the symbols so far
  IsLast-insert :
      (n : ℕ) (row : Export) (found : Exports)
      → IsSymbol n row.name (row.section, row.offset)
      → ((wanted : Bytes) → IsLast wanted n (lookup wanted found))
      → (wanted : Bytes)
      → IsLast wanted (suc n) (lookup wanted (insert row.name (row.section, row.offset) found))
  IsLast-insert n row found is before wanted = elim (Bool-cases (bytes_eq.beq row.name wanted)) [
    | inl same ↦
        let named = (bytes_eq.beq_iff row.name wanted).0 same in
        let there : lookup wanted (insert row.name (row.section, row.offset) found)
            ≡ some (row.section, row.offset) =
          rw (← named) (lookup-insert_self row.name (row.section, row.offset) found) in
        rw there
          (n, omega arith, rw (← named) is, λ j name at more below symbol. absurd (omega arith))
    | inr other ↦
        let there = lookup-insert_ne row.name wanted (row.section, row.offset) found other in
        let differs : (name : Bytes) (at : ℤ × ℕ) → IsSymbol n name at → name ≢ wanted =
          λ name at symbol e.
            let same = IsSymbol-name n row.name name (row.section, row.offset) at is symbol in
            let equal : bytes_eq.beq row.name wanted ≡ true =
              (bytes_eq.beq_iff row.name wanted).1 (same ∙ e) in
            cc in
        rw there (IsLast-suc wanted n (lookup wanted found) differs (before wanted))
  ]

  exports_from-IsLast :
      (rounds index : ℕ) (found : Exports) {out : Exports}
      → exports_from loader header rounds index found ≡ ok out
      → ((wanted : Bytes) → IsLast wanted index (lookup wanted found))
      → ((i : ℕ)
          → index ≤ i
          → i < index + rounds
          → (name : Bytes) × (at : ℤ × ℕ) × IsSymbol i name at)
        × ((wanted : Bytes) → IsLast wanted (index + rounds) (lookup wanted out))
  unfolding exports_from
  exports_from-IsLast zero index found {out = out} q before =
      let e : found ≡ out = cc in
      let e' : index + 0 ≡ index = omega arith in
      (λ i least below. absurd (omega arith), λ wanted. rw (e', ← e) (before wanted))
  exports_from-IsLast (suc rounds) index found q before =
      let (row, q0, q1) = >>=-eq-ok (export_row loader header index) _ q in
      let is = export_row-IsSymbol index q0 in
      let e : index + suc rounds ≡ index + 1 + rounds = omega arith in
      let e' : index + 1 ≡ suc index = omega arith in
      let (there, last) =
        exports_from-IsLast rounds (index + 1) (insert row.name (row.section, row.offset) found) q1
          (λ name. rw e' (IsLast-insert index row found is before name)) in
      (
        λ i least below. elim (Bool-cases (ltb index i)) [
          | inl after ↦ there i (ground arith) (omega arith)
          | inr first ↦
              let same : index ≡ i = ground arith in
              rw (← same) (row.name, (row.section, row.offset), is)
        ],
        λ wanted. rw e (last wanted),
      )

  -- Where `exports` returns, each of the counted symbols of the export table can be read, and a name
  -- has in the result the section and the offset of the last symbol with it, and no entry where no
  -- symbol has it. Symbol `i` has the length of its name at byte 4i of the keys, which follow the
  -- hash table, and stands at byte 10i of the symbols, which follow the keys: the name's offset in
  -- the low 24 bits of its first word, its own offset in the second, and the section in the 16 bits
  -- after that, as two's complement where they make a number below 2^16, as bytes do.
  pub exports-IsLast :
      {out : Exports}
      → exports loader header ≡ ok out
      → ((i : ℕ) → i < exported_symbol_count → (name : Bytes) × (at : ℤ × ℕ) × IsSymbol i name at)
        × ((wanted : Bytes) → IsLast wanted exported_symbol_count (lookup wanted out))
  unfolding exports
  exports-IsLast q =
      let (there, last) =
        exports_from-IsLast exported_symbol_count 0 [] q
          (λ wanted i name at less is. absurd (omega arith)) in
      let e : 0 + exported_symbol_count ≡ exported_symbol_count = omega arith in
      (λ i less. there i (omega arith) (omega arith), λ wanted. rw e at (last wanted))
