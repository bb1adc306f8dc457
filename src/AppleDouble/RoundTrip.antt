-- ===== src/AppleDouble/RoundTrip.antt =====
-- What AppleDouble.write writes, AppleDouble.read reads back.
use cwhost.Base.{
  ℕ, ◌+◌, ◌-◌, ◌*◌, ◌<◌, ◌≤◌, ◌≡◌, refl, true, false, ◌||◌, [], ◌∷◌, ◌++◌, arith, length,
  length-append, replicate, drop, ltb, Bool-cases, inl, inr, ap, ◌∙◌, ◌⊎◌,
}
use mathlib.Core.List.{append_assoc, append-nil}
use cwhost.Base.Result.{Result, ok, err}
use cwhost.Base.Dict.{IsDict, Dict, has_key, insert}
use cwhost.Base.Bytes.{
  Bytes, be16, be32, slice, drop-add, drop-append, take-append, be16_value, be32_value,
}
use cwhost.AppleDouble.{
  AppleDoubleError, magic, version, header_size, row_at, read_entries, parse, emit, serialize,
}

-- What `emit` gives for one more entry.
record Emitted (offset k : ℕ) (v : Bytes) (d : Dict Bytes) (rows payload : Bytes) : Type 0 where
  id_fits : k < 0x1_0000_0000
  offset_fits : offset < 0x1_0000_0000
  length_fits : length v < 0x1_0000_0000
  rest_rows : Bytes
  rest_payload : Bytes
  rest : emit (offset + length v) d ≡ ok (rest_rows, rest_payload)
  rows_eq : rows ≡ be32 k ++ (be32 offset ++ (be32 (length v) ++ rest_rows))
  payload_eq : payload ≡ v ++ rest_payload

emit-cons :
    (offset k : ℕ) (v : Bytes) (d : Dict Bytes) (rows payload : Bytes)
    → emit offset ((k, v) ∷ d) ≡ ok (rows, payload)
    → Emitted offset k v d rows payload
unfolding emit
emit-cons offset k v d rows payload e =
    go (emit (offset + length v) d) refl (Bool-cases (ltb 0xFFFF_FFFF k))
      (Bool-cases (ltb 0xFFFF_FFFF offset)) (Bool-cases (ltb 0xFFFF_FFFF (length v)))
  where
    go :
        (r : Result AppleDoubleError (Bytes × Bytes))
        → emit (offset + length v) d ≡ r
        → (ltb 0xFFFF_FFFF k ≡ true) ⊎ (ltb 0xFFFF_FFFF k ≡ false)
        → (ltb 0xFFFF_FFFF offset ≡ true) ⊎ (ltb 0xFFFF_FFFF offset ≡ false)
        → (ltb 0xFFFF_FFFF (length v) ≡ true) ⊎ (ltb 0xFFFF_FFFF (length v) ≡ false)
        → Emitted offset k v d rows payload
    go r q (inl a) b c = absurd (ground arith)
    go r q (inr a) (inl b) c = absurd (ground arith)
    go r q (inr a) (inr b) (inl c) = absurd (ground arith)
    go (err x) q (inr a) (inr b) (inr c) = absurd (ground arith)
    go (ok (rr, pp)) q (inr a) (inr b) (inr c) = record {
      id_fits = ground arith;
      offset_fits = ground arith;
      length_fits = ground arith;
      rest_rows = rr;
      rest_payload = pp;
      rest = q;
      rows_eq = ground arith;
      payload_eq = ground arith;
    }

has_key-append : (j : ℕ) (d d' : Dict Bytes) → has_key j (d ++ d') ≡ (has_key j d || has_key j d')
has_key-append j [] d' = refl
has_key-append j ((k, v) ∷ d) d' = ground (arith, has_key-append j d d')

-- In a dictionary an entry's key stands nowhere in front of it.
has_key-front :
    (acc : Dict Bytes) (k : ℕ) (v : Bytes) (d : Dict Bytes)
    → IsDict (acc ++ (k, v) ∷ d)
    → has_key k acc ≡ false
has_key-front [] k v d h = refl
has_key-front ((j, w) ∷ acc) k v d h =
    ground (arith, has_key-append j acc ((k, v) ∷ d), has_key-front acc k v d h.1)

insert_fresh :
    (k : ℕ) (v : Bytes) (d : Dict Bytes) → has_key k d ≡ false → insert k v d ≡ d ++ (k, v) ∷ []
insert_fresh k v [] h = refl
insert_fresh k v ((j, w) ∷ d) h = ground (arith, insert_fresh k v d)

-- The row that was emitted is the row that is read.
row_lem :
    (bytes rest : Bytes) (i k offset n : ℕ)
    → k < 0x1_0000_0000
    → offset < 0x1_0000_0000
    → n < 0x1_0000_0000
    → drop i bytes ≡ be32 k ++ (be32 offset ++ (be32 n ++ rest))
    → row_at bytes i ≡ ok (k, offset, n)
row_lem bytes rest i k offset n hk ho hn e = rw (
  drop-add i 4 bytes,
  drop-add i 8 bytes,
  e,
  be32_value k hk,
  be32_value offset ho,
  be32_value n hn,
)

slice_lem :
    (bytes v rest : Bytes) (offset : ℕ)
    → drop offset bytes ≡ v ++ rest
    → slice bytes offset (offset + length v) ≡ v
slice_lem bytes v rest offset e =
    let k : offset + length v - offset ≡ length v = omega arith in
    rw (k, e) (take-append (length v) v rest refl)

-- Where the bytes from row `index` on, and those from `offset` on, are what was emitted for `d`,
-- the loop reads `d`.
loop_lem :
    (d acc : Dict Bytes) (index offset table_end : ℕ) (bytes rows payload tail : Bytes)
    → emit offset d ≡ ok (rows, payload)
    → IsDict (acc ++ d)
    → table_end ≤ offset
    → length bytes ≡ offset + length payload
    → drop (header_size + 12 * index) bytes ≡ rows ++ tail
    → drop offset bytes ≡ payload
    → read_entries (length d) index bytes table_end acc ≡ ok (acc ++ d)
unfolding read_entries
loop_lem [] acc index offset table_end bytes rows payload tail e h l k r p = rw append-nil
loop_lem ((key, v) ∷ d) acc index offset table_end bytes rows payload tail e h l k r p =
    let s = emit-cons offset key v d rows payload e in
    let here =
      row_lem bytes (s.rest_rows ++ tail) (header_size + 12 * index) key offset (length v) s.id_fits
        s.offset_fits s.length_fits (r ∙ ap (λ t. t ++ tail) s.rows_eq) in
    let fresh = has_key-front acc key v d h in
    let fits : length bytes ≡ offset + length v + length s.rest_payload =
      omega (arith, k, ap length s.payload_eq, length-append {0} v s.rest_payload) in
    let inside : (ltb offset table_end || ltb (length bytes) (offset + length v)) ≡ false =
      ground arith in
    let assoc = append_assoc acc ((key, v) ∷ []) d in
    let next : header_size + 12 * (index + 1) ≡ header_size + 12 * index + 12 = omega arith in
    rw
      (
        here,
        inside,
        fresh,
        slice_lem bytes v s.rest_payload offset (p ∙ s.payload_eq),
        insert_fresh key v acc fresh,
      )
      (loop_lem d (acc ++ (key, v) ∷ []) (index + 1) (offset + length v) table_end bytes s.rest_rows
          s.rest_payload tail s.rest (rw assoc h) (omega arith) fits
          (rw next (
            drop-add (header_size + 12 * index) 12 bytes
            ∙ ap (drop 12) (r ∙ ap (λ t. t ++ tail) s.rows_eq)))
          (drop-add offset (length v) bytes
            ∙ ap (drop (length v)) (p ∙ s.payload_eq)
            ∙ drop-append (length v) v s.rest_payload refl)
        ∙ ap ok assoc)

length-emit :
    (d : Dict Bytes) (offset : ℕ) (rows payload : Bytes)
    → emit offset d ≡ ok (rows, payload)
    → length rows ≡ 12 * length d
unfolding emit
length-emit [] offset rows payload e = ground arith
length-emit ((k, v) ∷ d) offset rows payload e =
    let s = emit-cons offset k v d rows payload e in
    omega (
      arith,
      ap length s.rows_eq,
      length-emit d (offset + length v) s.rest_rows s.rest_payload s.rest,
    )

-- What `serialize` gives when it succeeds.
record Serialized (d : Dict Bytes) (bytes : Bytes) : Type 0 where
  few : length d < 0x1_0000
  rows : Bytes
  payload : Bytes
  emitted : emit (header_size + 12 * length d) d ≡ ok (rows, payload)
  layout :
      be32 magic ++ (be32 version ++ (replicate 16 0 ++ (be16 (length d) ++ (rows ++ payload))))
      ≡ bytes

serialize_lem : (d : Dict Bytes) (bytes : Bytes) → serialize d ≡ ok bytes → Serialized d bytes
unfolding serialize
serialize_lem d bytes e =
    go (Bool-cases (ltb 0xFFFF (length d))) (emit (header_size + 12 * length d) d) refl
  where
    go :
        (ltb 0xFFFF (length d) ≡ true) ⊎ (ltb 0xFFFF (length d) ≡ false)
        → (r : Result AppleDoubleError (Bytes × Bytes)) → emit (header_size + 12 * length d) d ≡ r
        → Serialized d bytes
    go (inl many) r q = absurd (ground arith)
    go (inr few) (err x) q = absurd (ground arith)
    go (inr few) (ok (rows, payload)) q = record {
      few = ground arith;
      rows = rows;
      payload = payload;
      emitted = q;
      layout = ground arith;
    }

-- A dictionary that holds no key twice and that `serialize` can write is what `parse` reads back
-- from the bytes, its entries in the same order.
pub parse-serialize :
    (entries : Dict Bytes) (bytes : Bytes)
    → IsDict entries
    → serialize entries ≡ ok bytes
    → parse bytes ≡ ok entries
unfolding parse
parse-serialize d bytes h e =
    let s = serialize_lem d bytes e in
    let w = length-emit d (header_size + 12 * length d) s.rows s.payload s.emitted in
    let total = length-append {0} s.rows s.payload in
    let body =
      be32 magic
      ++ (be32 version ++ (replicate 16 0 ++ (be16 (length d) ++ (s.rows ++ s.payload)))) in
    let long : ltb (length body) header_size ≡ false = ground arith in
    let enough : ltb (length body) (header_size + 12 * length d) ≡ false = ground arith in
    rw (← s.layout) (
      rw (be16_value (length d) s.few) (
        rw (long, enough)
          (loop_lem d [] 0 (header_size + 12 * length d) (header_size + 12 * length d) body s.rows
            s.payload s.payload s.emitted h (omega arith) (omega arith) refl
            (drop-add 26 (12 * length d) body ∙ drop-append (12 * length d) s.rows s.payload w))))
