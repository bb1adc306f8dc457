-- ===== src/Resources/Bounds.antt =====
-- ResourceFork.parse never reads outside of its input.
use cwhost.Base.{
  ℕ, zero, suc, ◌+◌, ◌*◌, ◌≤◌, ◌≢◌, ◌||◌, [], length, ltb, arith, true, false, ◌≡◌, Bool, refl,
}
use cwhost.Base.Int.{ℤ}
use cwhost.Base.Result.{Result, err, raise_if, ◌>>◌, >>=-ne-err}
use cwhost.Base.Bytes.{Bytes, u16_at-some, u32_at-some, slice, from_be}
use cwhost.Base.Map.{Map, has_key, insert, int_eq, bytes_eq}
use cwhost.Resources.{
  ResourceError, struct_error, bad_offsets, truncated_map, bad_lists, truncated_types,
  truncated_header, half, word, typed_of, Resources, resource_at, read_references, read_types,
  parse_map, parse,
}

half-ne : (bytes : Bytes) (i : ℕ) → i + 2 ≤ length bytes → half bytes i ≢ err struct_error
half-ne bytes i h = let x = u16_at-some bytes i h in rw x.1 (λ e. cc)

word-ne : (bytes : Bytes) (i : ℕ) → i + 4 ≤ length bytes → word bytes i ≢ err struct_error
word-ne bytes i h = let x = u32_at-some bytes i h in rw x.1 (λ e. cc)

-- what follows a guard is reached only where its test fails
guarded-ne :
    {A : Type 0} (test : Bool) (e : ResourceError) (rest : Result ResourceError A)
    → e ≢ struct_error
    → (test ≡ false → rest ≢ err struct_error)
    → (raise_if test e >> rest) ≢ err struct_error
guarded-ne true e rest d k = λ q. d cc
guarded-ne false e rest d k = k refl

module _ (bytes : Bytes) (data_offset data_end type_start map_end : ℕ)
    (in_data : data_end ≤ length bytes) (in_map : map_end ≤ length bytes) where
  resource_at-ne :
      (ty : Bytes) (ref : ℕ)
      → ref + 12 ≤ map_end
      → resource_at bytes data_offset data_end type_start map_end ty ref ≢ err struct_error
  unfolding resource_at
  resource_at-ne ty ref h = >>=-ne-err (half bytes ref) _ (half-ne bytes ref (omega arith)) (λ id.
      let p = data_offset + from_be 0 (slice bytes (ref + 5) (ref + 8)) in
      guarded-ne (ltb data_end (p + 4)) _ _ (λ e. cc)
        (λ q.
          >>=-ne-err (word bytes p) _ (word-ne bytes p (ground arith))
            (λ n. guarded-ne (ltb data_end (p + 4 + n)) _ _ (λ e. cc) (λ r e. cc))))

  read_references-ne :
      (rounds index : ℕ) (ty : Bytes) (start : ℕ) (typed : Map ℤ Bytes)
      → start + 12 * (index + rounds) ≤ map_end
      → read_references bytes data_offset data_end type_start map_end rounds index ty start typed
        ≢ err struct_error
  unfolding read_references
  read_references-ne zero index ty start typed h = λ e. cc
  read_references-ne (suc rounds) index ty start typed h =
      >>=-ne-err (resource_at bytes data_offset data_end type_start map_end ty (start + index * 12))
        _ (resource_at-ne ty (start + index * 12) (omega arith))
        (λ r.
          guarded-ne (has_key r.0 typed) _ _ (λ e. cc)
            (λ q.
              read_references-ne rounds (index + 1) ty start (insert r.0 r.1 typed) (omega arith)))

  read_types-ne :
      (rounds index : ℕ) (resources : Resources)
      → type_start + 2 + 8 * (index + rounds) ≤ map_end
      → read_types bytes data_offset data_end type_start map_end rounds index resources
        ≢ err struct_error
  unfolding read_types
  read_types-ne zero index resources h = λ e. cc
  read_types-ne (suc rounds) index resources h =
      let entry = type_start + 2 + 8 * index in
      >>=-ne-err (half bytes (entry + 4)) _ (half-ne bytes (entry + 4) (omega arith)) (λ count.
        >>=-ne-err (half bytes (entry + 6)) _ (half-ne bytes (entry + 6) (omega arith)) (λ offset.
          guarded-ne
            (ltb (type_start + offset) type_start
              || ltb map_end (type_start + offset + 12 * (count + 1)))
            _ _ (λ e. cc)
            (λ q.
              >>=-ne-err
                (read_references bytes data_offset data_end type_start map_end (count + 1) 0
                  (slice bytes entry (entry + 4)) (type_start + offset)
                  (typed_of (slice bytes entry (entry + 4)) resources))
                _ (read_references-ne (count + 1) 0 _ _ _ (ground arith))
                (λ typed. read_types-ne rounds (index + 1) _ (omega arith)))))

parse_map-ne : (bytes : Bytes) (a b c d : ℕ) → parse_map bytes a b c d ≢ err struct_error
unfolding parse_map
parse_map-ne bytes a b c d =
    guarded-ne (ltb (length bytes) (a + c) || ltb (length bytes) (b + d)) bad_offsets _ (λ e. cc)
      (λ q.
        guarded-ne (ltb d 30) truncated_map _ (λ e. cc)
          (λ r. >>=-ne-err (half bytes (b + 24)) _ (half-ne bytes (b + 24) (ground arith)) (λ types.
            >>=-ne-err (half bytes (b + 26)) _ (half-ne bytes (b + 26) (ground arith)) (λ names.
              guarded-ne (ltb (b + d) (b + types + 2) || ltb (b + d) (b + names)) bad_lists _
                (λ e. cc)
                (λ s.
                  >>=-ne-err (half bytes (b + types)) _ (half-ne bytes (b + types) (ground arith))
                    (λ n.
                      guarded-ne (ltb (b + d) (b + types + 2 + 8 * (n + 1))) truncated_types _
                        (λ e. cc)
                        (λ t.
                          >>=-ne-err (read_types bytes a (a + c) (b + types) (b + d) (n + 1) 0 []) _
                            (read_types-ne bytes a (a + c) (b + types) (b + d) (ground arith)
                              (ground arith) (n + 1) 0 [] (ground arith))
                            (λ resources e. cc))))))))

-- Parsing a resource fork returns its resources or raises an error of its own: `struct.unpack_from`
-- never fails in it, whatever the bytes.
pub parse-within_input : (bytes : Bytes) → parse bytes ≢ err struct_error
unfolding parse
parse-within_input bytes =
    guarded-ne (ltb (length bytes) 16) truncated_header _ (λ e. cc)
      (λ h. >>=-ne-err (word bytes 0) _ (word-ne bytes 0 (ground arith)) (λ a.
        >>=-ne-err (word bytes 4) _ (word-ne bytes 4 (ground arith)) (λ b.
          >>=-ne-err (word bytes 8) _ (word-ne bytes 8 (ground arith)) (λ c.
            >>=-ne-err (word bytes 12) _ (word-ne bytes 12 (ground arith))
              (λ d. parse_map-ne bytes a b c d)))))
