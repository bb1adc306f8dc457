-- ===== src/Tests/Exports.antt =====
-- pef.py: an export table in which a name stands twice.
use cwhost.Base.{ℕ, ◌<◌, ◌≡◌, refl, [], ◌∷◌, ◌++◌, take}
use cwhost.Base.Int.{ℤ, pos, negsuc}
use cwhost.Base.Result.{ok, err}
use cwhost.Base.Bytes.{Bytes, be16, be32}
use cwhost.Base.Map.{lookup, bytes_eq}
use cwhost.Pef.{struct_error}
use cwhost.Pef.Container.{LoaderHeader}
use cwhost.Pef.Exports.{Exports, exports}
use cwhost.Pef.Exports.Found.{IsSymbol, IsLast, exports-IsLast}

abbrev header : LoaderHeader
header = record {
  main_section = negsuc 0;
  main_offset = 0;
  init_section = negsuc 0;
  init_offset = 0;
  term_section = negsuc 0;
  term_offset = 0;
  imported_library_count = 0;
  total_imported_symbol_count = 0;
  reloc_section_count = 0;
  reloc_instr_offset = 0;
  loader_strings_offset = 46;
  export_hash_offset = 0;
  export_hash_table_power = 0;
  exported_symbol_count = 3;
}

abbrev symbol : Bytes
symbol = be16 1 ++ be16 0

-- the hash table, the keys, the symbols `a`, `b` and `a`, and their names
abbrev table : Bytes
table =
    be32 0
    ++ (symbol
        ++ (symbol
            ++ (symbol
                ++ (be32 0x0200_0000
                    ++ (be32 16
                        ++ (be16 1
                            ++ (be32 0x0200_0001
                                ++ (be32 8
                                    ++ (be16 0xFFFF
                                        ++ (be32 0x0200_0000
                                            ++ (be32 24 ++ (be16 0 ++ (b'a' ∷ b'b' ∷ [])))))))))))))

abbrev exported : Exports
exported = (b'a' ∷ [], (pos 0, 24)) ∷ (b'b' ∷ [], (negsuc 0, 8)) ∷ []

three_symbols : exports table header ≡ ok exported
unfolding exports
three_symbols = refl

-- the table of symbols is not checked against the section's length
cut_short : exports (take 40 table) header ≡ err struct_error
unfolding exports
cut_short = refl

exports-IsLast_example :
    ((i : ℕ) → i < 3 → (name : Bytes) × (at : ℤ × ℕ) × IsSymbol table header i name at)
    × ((wanted : Bytes) → IsLast table header wanted 3 (lookup wanted exported))
exports-IsLast_example = exports-IsLast table header three_symbols
