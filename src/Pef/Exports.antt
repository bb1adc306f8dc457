-- ===== src/Pef/Exports.antt =====
-- pef.py, PEF.exports: the exported names, with the section and the offset of each. Names
-- stay bytes: MacRoman gives each byte a character of its own.
pub mod Found
use cwhost.Base.{
  ℕ, zero, suc, ◌+◌, ◌-◌, ◌*◌, ◌%◌, ◌^◌, ◌≡◌, Option, none, some, [], ltb, if◌then◌else◌, refl,
  arith, Bool-cases, inl, inr,
}
use cwhost.Base.Int.{ℤ, pos, negsuc}
use cwhost.Base.Result.{Result, ok, ◌>>=◌, >>=-eq-ok}
use cwhost.Base.Bytes.{Bytes, slice}
use cwhost.Base.Map.{Map, lookup, insert, lookup-insert_self, lookup-insert_ne, bytes_eq}
use cwhost.Pef.{PefError}
use cwhost.Pef.Container.{LoaderHeader, word, half}

-- a 16-bit field that `struct` reads as signed
abbrev pub signed_half : ℕ → ℤ
signed_half n = if ltb n 0x8000 then pos n else negsuc (0xFFFF - n)

pub record Export : Type 0 where
  pub name : Bytes
  pub section : ℤ
  pub offset : ℕ

abbrev pub Exports : Type 0
Exports = Map Bytes (ℤ × ℕ)

module _ (loader : Bytes) (header : LoaderHeader) where
  abbrev pub key_offset : ℕ
  key_offset = header.export_hash_offset + 2 ^ header.export_hash_table_power * 4

  abbrev pub symbols_offset : ℕ
  symbols_offset = key_offset + 4 * header.exported_symbol_count

  -- the loop's round at `index`
  unfoldable pub export_row : ℕ → Result PefError Export
  export_row index = do
    amount ← half loader (key_offset + index * 4)
    encoded_name_offset ← half loader (key_offset + index * 4 + 2)
    class_and_name_offset ← word loader (symbols_offset + index * 10)
    value ← word loader (symbols_offset + index * 10 + 4)
    section ← half loader (symbols_offset + index * 10 + 8)
    let start = header.loader_strings_offset + class_and_name_offset % 0x100_0000
    ok (record {
      name = slice loader start (start + amount);
      section = signed_half section;
      offset = value;
    })

  -- the loop: `rounds` symbols from `index` on are left
  unfoldable pub exports_from : ℕ → ℕ → Exports → Result PefError Exports
  unfolding export_row
  exports_from zero index found = ok found
  exports_from (suc rounds) index found = do
    row ← export_row index
    exports_from rounds (index + 1) (insert row.name (row.section, row.offset) found)

  -- PEF.exports
  unfoldable pub exports : Result PefError Exports
  unfolding exports_from
  exports = exports_from header.exported_symbol_count 0 []
