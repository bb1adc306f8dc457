-- ===== src/AppleDouble/Bounds.antt =====
-- AppleDouble.read never reads outside of its input.
use cwhost.Base.{ℕ, zero, suc, ◌+◌, ◌*◌, ◌≤◌, ◌≢◌, [], arith, length, ltb, Bool-cases, inl, inr}
use cwhost.Base.Result.{err}
use cwhost.Base.Dict.{Dict, insert}
use cwhost.Base.Bytes.{u32_at-some, u16_at-some, Bytes, slice}
use cwhost.AppleDouble.{struct_error, header_size, read_entries, parse}

read_entries-ne-struct_error :
    (rounds index : ℕ) (bytes : Bytes) (table_end : ℕ) (entries : Dict Bytes)
    → header_size + 12 * (index + rounds) ≤ length bytes
    → read_entries rounds index bytes table_end entries ≢ err struct_error
unfolding read_entries
read_entries-ne-struct_error zero index bytes table_end entries h = λ e. cc
read_entries-ne-struct_error (suc rounds) index bytes table_end entries h =
    let x = u32_at-some bytes (header_size + 12 * index) (omega arith) in
    let y = u32_at-some bytes (header_size + 12 * index + 4) (omega arith) in
    let z = u32_at-some bytes (header_size + 12 * index + 8) (omega arith) in
    rw (x.1, y.1, z.1)
      (ground (
        arith,
        read_entries-ne-struct_error rounds (index + 1) bytes table_end
            (insert x.0 (slice bytes y.0 (y.0 + z.0)) entries) (omega arith),
      ))

-- On every input the parser returns entries or raises an error of its own: `struct.unpack_from`
-- never fails in it.
pub parse_in_bounds : (bytes : Bytes) → parse bytes ≢ err struct_error
unfolding parse
parse_in_bounds bytes = elim (Bool-cases (ltb (length bytes) header_size)) [
  | inl short ↦ rw short (λ e. cc)
  | inr long ↦
      let x = u32_at-some bytes 0 (ground arith) in
      let y = u32_at-some bytes 4 (ground arith) in
      let z = u16_at-some bytes 24 (ground arith) in
      rw (long, x.1, y.1, z.1)
        (ground (arith, read_entries-ne-struct_error z.0 0 bytes (header_size + 12 * z.0) []))
]
