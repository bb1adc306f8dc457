-- ===== src/AppleDouble.antt =====
-- appledouble.py: AppleDouble containers, which carry resource forks and Finder data beside a file.
-- `parse` is AppleDouble.read behind the reading of the file, `serialize` is AppleDouble.write
-- before its bytes go to the file.
pub mod RoundTrip
pub mod Bounds
use cwhost.Base.{
  ℕ, zero, suc, ◌+◌, ◌*◌, ◌<◌, Bool, true, false, ◌||◌, Option, none, some, List, [], ◌∷◌, ◌++◌,
  length, replicate, ltb, ◌==◌, not,
}
use cwhost.Base.Result.{Result, ok, err, raise_if, or_raise, ◌>>=◌, ◌>>◌}
use cwhost.Base.Dict.{Dict, has_key, insert}
use cwhost.Base.Bytes.{Bytes, be16, be32, u16_at, u32_at, slice}

-- `struct_error` is the exception of Python's `struct`, which the methods do not catch.
pub data AppleDoubleError : Type 0 where
  truncated_header bad_header truncated_table : AppleDoubleError
  bad_entry duplicate_entry bad_entry_id : ℕ → AppleDoubleError
  struct_error : AppleDoubleError

abbrev pub magic : ℕ
magic = 0x00051607

abbrev pub version : ℕ
version = 0x00020000

abbrev pub header_size : ℕ
header_size = 26

-- struct.unpack_from(">III", data, i)
abbrev pub row_at : Bytes → ℕ → Result AppleDoubleError (ℕ × ℕ × ℕ)
row_at bytes i = do
  entry_id ← or_raise (u32_at bytes i) struct_error
  offset ← or_raise (u32_at bytes (i + 4)) struct_error
  n ← or_raise (u32_at bytes (i + 8)) struct_error
  ok (entry_id, offset, n)

-- The loop of `read` over the entry table: `rounds` entries from `index` on are left.
unfoldable pub read_entries : ℕ → ℕ → Bytes → ℕ → Dict Bytes → Result AppleDoubleError (Dict Bytes)
read_entries zero index bytes table_end entries = ok entries
read_entries (suc rounds) index bytes table_end entries =
    row_at bytes (header_size + 12 * index) >>= λ row.
    let (entry_id, offset, n) = row in
    raise_if (ltb offset table_end || ltb (length bytes) (offset + n)) (bad_entry entry_id)
    >> (raise_if (has_key entry_id entries) (duplicate_entry entry_id)
        >> read_entries rounds (index + 1) bytes table_end
            (insert entry_id (slice bytes offset (offset + n)) entries))

-- AppleDouble.read
unfoldable pub parse : Bytes → Result AppleDoubleError (Dict Bytes)
unfolding read_entries
parse bytes = do
  raise_if (ltb (length bytes) header_size) truncated_header
  found_magic ← or_raise (u32_at bytes 0) struct_error
  found_version ← or_raise (u32_at bytes 4) struct_error
  raise_if (not (found_magic == magic) || not (found_version == version)) bad_header
  count ← or_raise (u16_at bytes 24) struct_error
  raise_if (ltb (length bytes) (header_size + 12 * count)) truncated_table
  read_entries count 0 bytes (header_size + 12 * count) []

-- `struct.pack` of an unsigned 32-bit field
abbrev pub pack32 : ℕ → Result AppleDoubleError Bytes
pack32 n = raise_if (ltb 0xFFFF_FFFF n) struct_error >> ok (be32 n)

-- The loop of `write`: the rows of the table, and the payload behind it from `offset` on.
unfoldable pub emit : ℕ → Dict Bytes → Result AppleDoubleError (Bytes × Bytes)
emit offset [] = ok ([], [])
emit offset ((entry_id, value) ∷ entries) = do
  raise_if (ltb 0xFFFF_FFFF entry_id) (bad_entry_id entry_id)
  id_field ← pack32 entry_id
  offset_field ← pack32 offset
  length_field ← pack32 (length value)
  (rows, payload) ← emit (offset + length value) entries
  ok (id_field ++ (offset_field ++ (length_field ++ rows)), value ++ payload)

-- AppleDouble.write
unfoldable pub serialize : Dict Bytes → Result AppleDoubleError Bytes
unfolding emit
serialize entries = do
  raise_if (ltb 0xFFFF (length entries)) struct_error
  (rows, payload) ← emit (header_size + 12 * length entries) entries
  ok (
      be32 magic
      ++ (be32 version ++ (replicate 16 0 ++ (be16 (length entries) ++ (rows ++ payload)))))
