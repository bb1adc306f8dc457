-- ===== src/Pef/Container.antt =====
-- pef.py, class PEF: the tables of a container. Names stay the bytes that `decode("mac_roman")`
-- turns into text. The header's dates and version numbers are read, as the constructor does, but not
-- kept: nothing else uses them.
pub mod Bounds
pub mod Tables
use cwhost.Base.{
  ℕ, zero, suc, ◌+◌, ◌*◌, ◌/◌, ◌%◌, ◌-◌, ◌^◌, Bool, true, false, ◌&&◌, ◌||◌, not, Option, none,
  some, List, [], ◌∷◌, ◌++◌, length, take, drop, get_elem?, ltb, leb, ◌==◌, if◌then◌else◌,
}
use cwhost.Base.Int.{ℤ, pos, negsuc}
use cwhost.Base.Result.{Result, ok, err, or_raise, raise_if, ◌>>=◌, ◌>>◌}
use cwhost.Base.Bytes.{Bytes, u16_at, u32_at, slice}
use cwhost.Pef.{
  PefError, not_a_container, truncated_sections, section_range, truncated_loader,
  truncated_libraries, truncated_imports, truncated_relocs, stream_range, struct_error, index_error,
}

abbrev pub word : Bytes → ℕ → Result PefError ℕ
word bytes i = or_raise (u32_at bytes i) struct_error

abbrev pub half : Bytes → ℕ → Result PefError ℕ
half bytes i = or_raise (u16_at bytes i) struct_error

abbrev pub byte : Bytes → ℕ → Result PefError ℕ
byte bytes i = or_raise (get_elem? bytes i) struct_error

-- a 32-bit field that `struct` reads as signed
abbrev pub signed_word : ℕ → ℤ
signed_word n = if ltb n 0x8000_0000 then pos n else negsuc (0x1_0000_0000 - n - 1)

-- the names of SECTION_KINDS
pub data SectionKind : Type 0 where
  code unpacked_data pattern_initialized_data constant loader debug executable_data exception
        traceback :
      SectionKind
  unknown : ℕ → SectionKind

unfoldable pub section_kind : ℕ → SectionKind
section_kind zero = code
section_kind (suc zero) = unpacked_data
section_kind (suc (suc zero)) = pattern_initialized_data
section_kind (suc (suc (suc zero))) = constant
section_kind (suc (suc (suc (suc zero)))) = loader
section_kind (suc (suc (suc (suc (suc zero))))) = debug
section_kind (suc (suc (suc (suc (suc (suc zero)))))) = executable_data
section_kind (suc (suc (suc (suc (suc (suc (suc zero))))))) = exception
section_kind (suc (suc (suc (suc (suc (suc (suc (suc zero)))))))) = traceback
section_kind (suc (suc (suc (suc (suc (suc (suc (suc (suc n))))))))) = unknown (n + 9)

pub record Section : Type 0 where
  pub index : ℕ
  pub kind : SectionKind
  pub default_address : ℕ
  pub total_size : ℕ
  pub unpacked_size : ℕ
  pub packed_size : ℕ
  pub container_offset : ℕ
  pub alignment : ℕ

-- The loop over a table: `rounds` rows from `index` on, the row at an index and a position.
abbrev pub collect :
    {A : Type 0} → ℕ → ℕ → ℕ → ℕ → (ℕ → ℕ → Result PefError A) → Result PefError (List A)
collect zero index position stride row = ok []
collect (suc rounds) index position stride row = do
  first ← row index position
  rest ← collect rounds (index + 1) (position + stride) stride row
  ok (first ∷ rest)

-- a row of the section table; `struct` reads all of its 28 bytes, of which the last is reserved
unfoldable pub section_row : Bytes → ℕ → ℕ → Result PefError Section
unfolding section_kind
section_row bytes index offset = do
  raise_if (ltb (length bytes) (offset + 28)) truncated_sections
  default_address ← word bytes (offset + 4)
  total_size ← word bytes (offset + 8)
  unpacked_size ← word bytes (offset + 12)
  packed_size ← word bytes (offset + 16)
  container_offset ← word bytes (offset + 20)
  kind ← byte bytes (offset + 24)
  alignment ← byte bytes (offset + 26)
  reserved ← byte bytes (offset + 27)
  ok (record {
    index = index;
    kind = section_kind kind;
    default_address = default_address;
    total_size = total_size;
    unpacked_size = unpacked_size;
    packed_size = packed_size;
    container_offset = container_offset;
    alignment = 2 ^ alignment;
  })

-- the NUL-terminated name at the head of `bytes`
abbrev pub until_nul : Bytes → Bytes
until_nul [] = []
until_nul (b ∷ bs) = let rest = until_nul bs in if b == 0 then [] else b ∷ rest

-- cstr
unfoldable pub cstr : Bytes → ℕ → Bytes
cstr bytes offset = until_nul (drop offset bytes)

-- the fields of the loader header that the parser uses
pub record LoaderHeader : Type 0 where
  pub main_section : ℤ
  pub main_offset : ℕ
  pub init_section : ℤ
  pub init_offset : ℕ
  pub term_section : ℤ
  pub term_offset : ℕ
  pub imported_library_count : ℕ
  pub total_imported_symbol_count : ℕ
  pub reloc_section_count : ℕ
  pub reloc_instr_offset : ℕ
  pub loader_strings_offset : ℕ
  pub export_hash_offset : ℕ
  pub export_hash_table_power : ℕ
  pub exported_symbol_count : ℕ

-- PEF._parse_loader_header
unfoldable pub parse_loader_header : Bytes → Result PefError LoaderHeader
parse_loader_header bytes = do
  raise_if (ltb (length bytes) 56) truncated_loader
  main_section ← word bytes 0
  main_offset ← word bytes 4
  init_section ← word bytes 8
  init_offset ← word bytes 12
  term_section ← word bytes 16
  term_offset ← word bytes 20
  libraries ← word bytes 24
  symbols ← word bytes 28
  relocs ← word bytes 32
  instrs ← word bytes 36
  strings ← word bytes 40
  hash ← word bytes 44
  power ← word bytes 48
  exported ← word bytes 52
  ok (record {
    main_section = signed_word main_section;
    main_offset = main_offset;
    init_section = signed_word init_section;
    init_offset = init_offset;
    term_section = signed_word term_section;
    term_offset = term_offset;
    imported_library_count = libraries;
    total_imported_symbol_count = symbols;
    reloc_section_count = relocs;
    reloc_instr_offset = instrs;
    loader_strings_offset = strings;
    export_hash_offset = hash;
    export_hash_table_power = power;
    exported_symbol_count = exported;
  })

pub record Library : Type 0 where
  pub name : Bytes
  pub imported_symbol_count : ℕ
  pub first_imported_symbol : ℕ
  pub init_before_client : Bool
  pub weak : Bool

-- a row of the library table, of which `struct` reads all 24 bytes
unfoldable pub library_row : Bytes → ℕ → ℕ → ℕ → Result PefError Library
unfolding cstr
library_row bytes strings index position = do
  raise_if (ltb (length bytes) (position + 24)) truncated_libraries
  name_offset ← word bytes position
  count ← word bytes (position + 12)
  first ← word bytes (position + 16)
  options ← byte bytes (position + 20)
  reserved ← half bytes (position + 22)
  ok (record {
    name = cstr bytes (strings + name_offset);
    imported_symbol_count = count;
    first_imported_symbol = first;
    init_before_client = options / 128 % 2 == 1;
    weak = options / 64 % 2 == 1;
  })

-- Import
pub record Import : Type 0 where
  pub index : ℕ
  pub name : Bytes
  pub library : Option Bytes
  pub weak : Bool

-- the first library whose range of symbols holds the index
abbrev pub library_of : ℕ → List Library → Option Bytes
library_of index [] = none
library_of index (l ∷ ls) =
    let rest = library_of index ls in
    if leb l.first_imported_symbol index
      && ltb index (l.first_imported_symbol + l.imported_symbol_count)
    then some l.name
    else rest

unfoldable pub import_row : Bytes → ℕ → List Library → ℕ → ℕ → Result PefError Import
unfolding cstr
import_row bytes strings libraries index position = do
  raise_if (ltb (length bytes) (position + 4)) truncated_imports
  entry ← word bytes position
  ok (record {
    index = index;
    name = cstr bytes (strings + entry % 0x100_0000);
    library = library_of index libraries;
    weak = entry / 0x8000_0000 % 2 == 1;
  })

pub record RelocHeader : Type 0 where
  pub section_index : ℕ
  pub reloc_count_blocks : ℕ
  pub first_reloc_offset : ℕ

unfoldable pub reloc_row : Bytes → ℕ → ℕ → Result PefError RelocHeader
reloc_row bytes index position = do
  raise_if (ltb (length bytes) (position + 12)) truncated_relocs
  section_index ← half bytes position
  count ← word bytes (position + 4)
  first ← word bytes (position + 8)
  ok (record {
    section_index = section_index;
    reloc_count_blocks = count;
    first_reloc_offset = first;
  })

-- what the loader section holds
pub record Loader : Type 0 where
  pub header : LoaderHeader
  pub libraries : List Library
  pub imports : List Import
  pub reloc_headers : List RelocHeader

-- PEF._parse_loader_header, PEF._parse_imports and PEF._parse_reloc_headers in turn
unfoldable pub parse_loader : Bytes → Result PefError Loader
unfolding parse_loader_header library_row import_row reloc_row
parse_loader bytes = do
  header ← parse_loader_header bytes
  libraries ←
      collect header.imported_library_count 0 56 24 (library_row bytes header.loader_strings_offset)
  let imports_at = 56 + 24 * header.imported_library_count
  imports ←
      collect header.total_imported_symbol_count 0 imports_at 4
        (import_row bytes header.loader_strings_offset libraries)
  reloc_headers ←
      collect header.reloc_section_count 0 (imports_at + 4 * header.total_imported_symbol_count) 12
        (reloc_row bytes)
  ok (record {
    header = header;
    libraries = libraries;
    imports = imports;
    reloc_headers = reloc_headers;
  })

abbrev pub first_loader : List Section → Option Section
first_loader [] = none
first_loader (s ∷ ss) = elim s.kind [ loader ↦ some s | _ ↦ first_loader ss ]

-- PEF._section_bytes
unfoldable pub raw_bytes : Bytes → Section → Result PefError Bytes
raw_bytes bytes s =
    if ltb (length bytes) (s.container_offset + s.packed_size)
    then err section_range
    else ok (slice bytes s.container_offset (s.container_offset + s.packed_size))

-- an empty loader section has no tables
abbrev pub load_tables : Bytes → Result PefError (Option Loader)
load_tables [] = ok none
load_tables (b ∷ bs) = parse_loader (b ∷ bs) >>= λ l. ok (some l)

abbrev pub loader_of : Bytes → Option Section → Result PefError (Option Loader)
loader_of bytes none = ok none
loader_of bytes (some s) = raw_bytes bytes s >>= load_tables

-- "Joy!" and "peff"
abbrev pub has_magic : ℕ → ℕ → Bool
has_magic tag1 tag2 = (tag1 == 0x4A6F7921) && (tag2 == 0x70656666)

-- PEF.__init__
unfoldable pub parse : Bytes → Result PefError (List Section × Option Loader)
unfolding section_row raw_bytes parse_loader
parse bytes = do
  raise_if (ltb (length bytes) 40) not_a_container
  tag1 ← word bytes 0
  tag2 ← word bytes 4
  raise_if (not (has_magic tag1 tag2)) not_a_container
  format_version ← word bytes 12
  date_time_stamp ← word bytes 16
  date_time ← word bytes 16
  old_def_version ← word bytes 20
  old_imp_version ← word bytes 24
  current_version ← word bytes 28
  count ← half bytes 32
  inst_section_count ← half bytes 34
  reserved ← word bytes 36
  sections ← collect count 0 40 28 (section_row bytes)
  tables ← loader_of bytes (first_loader sections)
  ok (sections, tables)

-- PEF.reloc_stream, of a header
unfoldable pub reloc_stream : Bytes → LoaderHeader → RelocHeader → Result PefError Bytes
reloc_stream bytes header r =
    let start = header.reloc_instr_offset + r.first_reloc_offset in
    let stop = start + r.reloc_count_blocks * 2 in
    if ltb (length bytes) stop then err stream_range else ok (slice bytes start stop)
