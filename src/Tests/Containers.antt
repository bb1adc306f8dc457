-- ===== src/Tests/Containers.antt =====
-- appledouble.py and pef.py: small containers, instruction streams and packed sections.
use cwhost.Base.{◌≡◌, ◌≢◌, refl, false, some, [], ◌∷◌, ◌++◌, replicate, arith}
use cwhost.Base.Int.{pos}
use cwhost.Base.Result.{ok, err}
use cwhost.Base.Dict.{Dict}
use cwhost.Base.Bytes.{Bytes, be16, be32}
use cwhost.AppleDouble.{parse, serialize}
use cwhost.AppleDouble.RoundTrip.{parse-serialize}
use cwhost.Pef.{out_of_fuel}
use cwhost.Pef as Pef
use cwhost.Pef.Reloc.{State, add_value, apply_relocations}
use cwhost.Pef.Reloc.Steps.{IsFine}
use cwhost.Pef.Reloc.Safe.{apply_relocations-IsFine}
use cwhost.Pef.Varint.{varint, Groups, last, more, varint-encode}
use cwhost.Pef.Pidata.{expansion, section_image}
use cwhost.Pef.Pidata.Image.{expansion-ne-out_of_fuel}
use cwhost.Pef.Container.{Section, pattern_initialized_data, Loader, LoaderHeader, parse_loader}
use cwhost.Pef.Container.Tables.{Tabled, parse_loader-Tabled}
use cwhost.Pef.Container.Bounds.{parse-ne-struct_error}

-- a resource fork and the Finder's data
abbrev two_entries : Dict Bytes
two_entries = (2, 1 ∷ 2 ∷ 3 ∷ []) ∷ (9, 7 ∷ []) ∷ []

abbrev written : Bytes
written =
    be32 0x00051607
    ++ (be32 0x00020000
        ++ (replicate 16 0
            ++ (be16 2
                ++ (be32 2
                    ++ (be32 50
                        ++ (be32 3
                            ++ (be32 9 ++ (be32 53 ++ (be32 1 ++ (1 ∷ 2 ∷ 3 ∷ 7 ∷ []))))))))))

serialized : serialize two_entries ≡ ok written
unfolding serialize
serialized = refl

parse-serialize_example : parse written ≡ ok two_entries
parse-serialize_example = parse-serialize two_entries written (refl, (refl, tt)) serialized

-- test_by_sect_d_with_skip
skipped :
    apply_relocations
      (replicate 16 0)
      (be16 66)
      (pos 0x1000_0000 ∷ pos 0x2000_0000 ∷ [])
      []
      (pos 0x1000_0000)
      (pos 0x2000_0000)
    ≡ (ok tt, replicate 4 0 ++ (be32 0x2000_0000 ++ (be32 0x2000_0000 ++ replicate 4 0)))
unfolding apply_relocations
skipped = refl

-- test_small_repeat
abbrev repeated : Bytes
repeated = be16 0x4000 ++ be16 0x9001

abbrev three_words : Bytes
three_words = be32 0x1000_0000 ++ (be32 0x1000_0000 ++ be32 0x1000_0000)

repeats :
    apply_relocations
      (replicate 12 0)
      repeated
      (pos 0x1000_0000 ∷ pos 0x2000_0000 ∷ [])
      []
      (pos 0x1000_0000)
      (pos 0x2000_0000)
    ≡ (ok tt, three_words)
unfolding apply_relocations
repeats = refl

apply_relocations-IsFine_example :
    IsFine (apply_relocations (replicate 12 0) repeated [] [] (pos 1) (pos 2)).0
apply_relocations-IsFine_example =
    apply_relocations-IsFine (replicate 12 0) repeated [] [] (pos 1) (pos 2)

-- 0x81 0x05 encodes 133.
abbrev two_groups : Groups
two_groups = more 1 (omega arith) (last 5 (omega arith))

varint-encode_example : varint (9 ∷ 129 ∷ 5 ∷ 8 ∷ []) 1 ≡ some (133, 3)
varint-encode_example = varint-encode two_groups (9 ∷ 129 ∷ 5 ∷ 8 ∷ []) (8 ∷ []) 1 refl

varint_133 : varint (9 ∷ 129 ∷ 5 ∷ 8 ∷ []) 1 ≡ some (133, 3)
unfolding varint
varint_133 = refl

-- two zero bytes, three bytes as they stand, a block of one byte twice
abbrev packed : Bytes
packed = 2 ∷ 35 ∷ 1 ∷ 2 ∷ 3 ∷ 65 ∷ 1 ∷ 9 ∷ []

abbrev expanded : Bytes
expanded = 0 ∷ 0 ∷ 1 ∷ 2 ∷ 3 ∷ 9 ∷ 9 ∷ []

packed_expands : expansion packed 7 8 ≡ ok (expanded ++ 0 ∷ [])
unfolding expansion varint
packed_expands = refl

expansion-ne-out_of_fuel_example : expansion packed 7 8 ≢ err out_of_fuel
expansion-ne-out_of_fuel_example = expansion-ne-out_of_fuel packed 7 8

-- the section that holds the packed bytes, at 1 in its container
abbrev packed_section : Section
packed_section = record {
  index = 0;
  kind = pattern_initialized_data;
  default_address = 0;
  total_size = 9;
  unpacked_size = 7;
  packed_size = 8;
  container_offset = 1;
  alignment = 1;
}

image_made : section_image (0 ∷ packed) (packed_section ∷ []) 0 ≡ ok (expanded ++ 0 ∷ 0 ∷ [])
unfolding section_image varint
image_made = refl

-- a loader section with one library, whose only symbol is imported, and no relocations
abbrev loader_bytes : Bytes
loader_bytes =
    replicate 24 0
    ++ (be32 1
        ++ (be32 1
            ++ (be32 0
                ++ (be32 84
                    ++ (be32 84
                        ++ (be32 88
                            ++ (be32 0
                                ++ (be32 0
                                    ++ (be32 0
                                        ++ (be32 0
                                            ++ (be32 0
                                                ++ (be32 1
                                                    ++ (be32 0
                                                        ++ (replicate 4 0
                                                            ++ (be32 2
                                                            ++ (65 ∷ 0 ∷ 66 ∷ 0 ∷ []))))))))))))))))

abbrev loader_tables : Loader
loader_tables = record {
  header = record {
    main_section = pos 0;
    main_offset = 0;
    init_section = pos 0;
    init_offset = 0;
    term_section = pos 0;
    term_offset = 0;
    imported_library_count = 1;
    total_imported_symbol_count = 1;
    reloc_section_count = 0;
    reloc_instr_offset = 84;
    loader_strings_offset = 84;
    export_hash_offset = 88;
    export_hash_table_power = 0;
    exported_symbol_count = 0;
  };
  libraries =
      record {
        name = 65 ∷ [];
        imported_symbol_count = 1;
        first_imported_symbol = 0;
        init_before_client = false;
        weak = false;
      }
      ∷ [];
  imports = record { index = 0; name = 66 ∷ []; library = some (65 ∷ []); weak = false } ∷ [];
  reloc_headers = [];
}

loader_read : parse_loader loader_bytes ≡ ok loader_tables
unfolding parse_loader
loader_read = refl

parse_loader-Tabled_example : Tabled loader_bytes loader_tables
parse_loader-Tabled_example = parse_loader-Tabled loader_bytes loader_tables loader_read

parse-ne-struct_error_example : Pef.Container.parse loader_bytes ≢ err Pef.struct_error
parse-ne-struct_error_example = parse-ne-struct_error loader_bytes

-- a section of two words, and the interpreter at the second one
abbrev at_second : State
at_second = record {
  position = 4;
  next_import = 0;
  current_c = pos 1;
  current_d = pos 2;
  section = be32 7 ++ be32 0xFFFF_FFFF;
}

wrapped : add_value 0xFFFF_FFFF (pos 10) ≡ 9
unfolding add_value
wrapped = refl
