-- ===== src/Pef.antt =====
-- pef.py: PEF containers. The exceptions of the module's parser.
pub mod Reloc
pub mod Varint
pub mod Pidata
pub mod Container
pub mod Exports

-- One constructor for each `raise PEFError` of pef.py; `struct_error` is the exception of Python's
-- `struct`, `out_of_fuel` the bound of the loop that expands a section.
pub data PefError : Type 0 where
  truncated_varint not_a_container truncated_sections section_range : PefError
  truncated_loader truncated_libraries truncated_imports truncated_relocs : PefError
  size_mismatch stream_range struct_error index_error out_of_fuel : PefError
