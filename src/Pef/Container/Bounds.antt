-- ===== src/Pef/Container/Bounds.antt =====
-- PEF.__init__ never reads outside of its input.
use cwhost.Base.{
  get_elem?-some, ℕ, zero, suc, ◌+◌, ◌*◌, ◌≤◌, ◌<◌, ◌≢◌, Option, none, some, List, [], ◌∷◌, length,
  ltb, arith, Bool-cases, inl, inr, not,
}
use cwhost.Base.Result.{Result, err, raise_if, ◌>>◌, >>=-ne-err}
use cwhost.Base.Bytes.{Bytes, u16_at-some, u32_at-some}
use cwhost.Pef.{
  PefError, not_a_container, truncated_sections, truncated_loader, truncated_libraries,
  truncated_imports, truncated_relocs, struct_error,
}
use cwhost.Pef.Container.{
  word, half, byte, collect, Section, section_row, parse_loader_header, Library, library_row,
  import_row, reloc_row, parse_loader, first_loader, raw_bytes, load_tables, loader_of, has_magic,
  parse,
}

word-ne : (bytes : Bytes) (i : ℕ) → i + 4 ≤ length bytes → word bytes i ≢ err struct_error
word-ne bytes i h = let x = u32_at-some bytes i h in rw x.1 (λ e. cc)

half-ne : (bytes : Bytes) (i : ℕ) → i + 2 ≤ length bytes → half bytes i ≢ err struct_error
half-ne bytes i h = let x = u16_at-some bytes i h in rw x.1 (λ e. cc)

byte-ne : (bytes : Bytes) (i : ℕ) → i < length bytes → byte bytes i ≢ err struct_error
byte-ne bytes i h = let x = get_elem?-some bytes i h in rw x.1 (λ e. cc)

-- the fields of a record of `n` bytes that the guard of its row found inside the bytes
guarded-ne :
    {A : Type 0} (n m : ℕ) (e : PefError) (rest : Result PefError A)
    → e ≢ struct_error
    → (m ≤ n → rest ≢ err struct_error)
    → (raise_if (ltb n m) e >> rest) ≢ err struct_error
guarded-ne n m e rest d k = elim (Bool-cases (ltb n m)) [
  | inl out ↦ rw out (λ q. d cc)
  | inr inside ↦ rw inside (k (ground arith))
]

collect-ne :
    {A : Type 0} (rounds index position stride : ℕ) (row : ℕ → ℕ → Result PefError A)
    → ((i p : ℕ) → row i p ≢ err struct_error)
    → collect rounds index position stride row ≢ err struct_error
collect-ne zero index position stride row h = λ e. cc
collect-ne (suc rounds) index position stride row h =
    >>=-ne-err (row index position) _ (h index position) (λ first.
      >>=-ne-err (collect rounds (index + 1) (position + stride) stride row) _
        (collect-ne rounds (index + 1) (position + stride) stride row h) (λ rest e. cc))

section_row-ne : (bytes : Bytes) (i p : ℕ) → section_row bytes i p ≢ err struct_error
unfolding section_row
section_row-ne bytes i p =
    guarded-ne (length bytes) (p + 28) truncated_sections _ (λ e. cc)
      (λ h. >>=-ne-err (word bytes (p + 4)) _ (word-ne bytes (p + 4) (omega arith)) (λ a.
        >>=-ne-err (word bytes (p + 8)) _ (word-ne bytes (p + 8) (omega arith)) (λ b.
          >>=-ne-err (word bytes (p + 12)) _ (word-ne bytes (p + 12) (omega arith)) (λ c.
            >>=-ne-err (word bytes (p + 16)) _ (word-ne bytes (p + 16) (omega arith)) (λ d.
              >>=-ne-err (word bytes (p + 20)) _ (word-ne bytes (p + 20) (omega arith)) (λ f.
                >>=-ne-err (byte bytes (p + 24)) _ (byte-ne bytes (p + 24) (omega arith)) (λ g.
                  >>=-ne-err (byte bytes (p + 26)) _ (byte-ne bytes (p + 26) (omega arith)) (λ k.
                    >>=-ne-err (byte bytes (p + 27)) _ (byte-ne bytes (p + 27) (omega arith))
                      (λ l e. cc)))))))))

parse_loader_header-ne : (bytes : Bytes) → parse_loader_header bytes ≢ err struct_error
unfolding parse_loader_header
parse_loader_header-ne bytes =
    guarded-ne (length bytes) 56 truncated_loader _ (λ e. cc)
      (λ h. >>=-ne-err (word bytes 0) _ (word-ne bytes 0 (omega arith)) (λ a.
        >>=-ne-err (word bytes 4) _ (word-ne bytes 4 (omega arith)) (λ b.
          >>=-ne-err (word bytes 8) _ (word-ne bytes 8 (omega arith)) (λ c.
            >>=-ne-err (word bytes 12) _ (word-ne bytes 12 (omega arith)) (λ d.
              >>=-ne-err (word bytes 16) _ (word-ne bytes 16 (omega arith)) (λ f.
                >>=-ne-err (word bytes 20) _ (word-ne bytes 20 (omega arith)) (λ g.
                  >>=-ne-err (word bytes 24) _ (word-ne bytes 24 (omega arith)) (λ k.
                    >>=-ne-err (word bytes 28) _ (word-ne bytes 28 (omega arith)) (λ l.
                      >>=-ne-err (word bytes 32) _ (word-ne bytes 32 (omega arith)) (λ m.
                        >>=-ne-err (word bytes 36) _ (word-ne bytes 36 (omega arith)) (λ n.
                          >>=-ne-err (word bytes 40) _ (word-ne bytes 40 (omega arith)) (λ o.
                            >>=-ne-err (word bytes 44) _ (word-ne bytes 44 (omega arith)) (λ p.
                              >>=-ne-err (word bytes 48) _ (word-ne bytes 48 (omega arith)) (λ q.
                                >>=-ne-err (word bytes 52) _ (word-ne bytes 52 (omega arith))
                                  (λ r e. cc)))))))))))))))

library_row-ne : (bytes : Bytes) (s i p : ℕ) → library_row bytes s i p ≢ err struct_error
unfolding library_row
library_row-ne bytes s i p =
    guarded-ne (length bytes) (p + 24) truncated_libraries _ (λ e. cc)
      (λ h. >>=-ne-err (word bytes p) _ (word-ne bytes p (omega arith)) (λ a.
        >>=-ne-err (word bytes (p + 12)) _ (word-ne bytes (p + 12) (omega arith)) (λ b.
          >>=-ne-err (word bytes (p + 16)) _ (word-ne bytes (p + 16) (omega arith)) (λ c.
            >>=-ne-err (byte bytes (p + 20)) _ (byte-ne bytes (p + 20) (omega arith)) (λ d.
              >>=-ne-err (half bytes (p + 22)) _ (half-ne bytes (p + 22) (omega arith))
                (λ f e. cc))))))

import_row-ne :
    (bytes : Bytes) (s : ℕ) (ls : List Library) (i p : ℕ)
    → import_row bytes s ls i p ≢ err struct_error
unfolding import_row
import_row-ne bytes s ls i p =
    guarded-ne (length bytes) (p + 4) truncated_imports _ (λ e. cc)
      (λ h. >>=-ne-err (word bytes p) _ (word-ne bytes p (omega arith)) (λ a e. cc))

reloc_row-ne : (bytes : Bytes) (i p : ℕ) → reloc_row bytes i p ≢ err struct_error
unfolding reloc_row
reloc_row-ne bytes i p =
    guarded-ne (length bytes) (p + 12) truncated_relocs _ (λ e. cc)
      (λ h. >>=-ne-err (half bytes p) _ (half-ne bytes p (omega arith)) (λ a.
        >>=-ne-err (word bytes (p + 4)) _ (word-ne bytes (p + 4) (omega arith)) (λ b.
          >>=-ne-err (word bytes (p + 8)) _ (word-ne bytes (p + 8) (omega arith)) (λ c e. cc))))

parse_loader-ne : (bytes : Bytes) → parse_loader bytes ≢ err struct_error
unfolding parse_loader
parse_loader-ne bytes =
    >>=-ne-err (parse_loader_header bytes) _ (parse_loader_header-ne bytes) (λ h.
      >>=-ne-err
        (collect h.imported_library_count 0 56 24 (library_row bytes h.loader_strings_offset)) _
        (collect-ne _ _ _ _ _ (library_row-ne bytes h.loader_strings_offset))
        (λ ls.
          >>=-ne-err
            (collect h.total_imported_symbol_count 0 (56 + 24 * h.imported_library_count) 4
              (import_row bytes h.loader_strings_offset ls))
            _ (collect-ne _ _ _ _ _ (import_row-ne bytes h.loader_strings_offset ls))
            (λ is.
              >>=-ne-err
                (collect h.reloc_section_count 0
                  (56 + 24 * h.imported_library_count + 4 * h.total_imported_symbol_count) 12
                  (reloc_row bytes))
                _ (collect-ne _ _ _ _ _ (reloc_row-ne bytes)) (λ rs e. cc))))

load_tables-ne : (bytes : Bytes) → load_tables bytes ≢ err struct_error
load_tables-ne [] = λ e. cc
load_tables-ne (b ∷ bs) =
    >>=-ne-err (parse_loader (b ∷ bs)) _ (parse_loader-ne (b ∷ bs)) (λ l e. cc)

loader_of-ne : (bytes : Bytes) (s : Option Section) → loader_of bytes s ≢ err struct_error
unfolding raw_bytes
loader_of-ne bytes none = λ e. cc
loader_of-ne bytes (some s) =
    >>=-ne-err (raw_bytes bytes s) load_tables (ground arith) load_tables-ne

-- Opening a container returns its tables or raises an error of the parser: `struct.unpack_from`
-- never fails in it, whatever the bytes.
pub parse-ne-struct_error : (bytes : Bytes) → parse bytes ≢ err struct_error
unfolding parse
parse-ne-struct_error bytes =
    guarded-ne (length bytes) 40 not_a_container _ (λ e. cc)
      (λ h. >>=-ne-err (word bytes 0) _ (word-ne bytes 0 (omega arith)) (λ a.
        >>=-ne-err (word bytes 4) _ (word-ne bytes 4 (omega arith)) (λ b.
          >>=-ne-err (raise_if (not (has_magic a b)) not_a_container) _ (ground arith) (λ u.
            >>=-ne-err (word bytes 12) _ (word-ne bytes 12 (omega arith)) (λ c.
              >>=-ne-err (word bytes 16) _ (word-ne bytes 16 (omega arith)) (λ d.
                >>=-ne-err (word bytes 16) _ (word-ne bytes 16 (omega arith)) (λ f.
                  >>=-ne-err (word bytes 20) _ (word-ne bytes 20 (omega arith)) (λ g.
                    >>=-ne-err (word bytes 24) _ (word-ne bytes 24 (omega arith)) (λ k.
                      >>=-ne-err (word bytes 28) _ (word-ne bytes 28 (omega arith)) (λ l.
                        >>=-ne-err (half bytes 32) _ (half-ne bytes 32 (omega arith)) (λ n.
                          >>=-ne-err (half bytes 34) _ (half-ne bytes 34 (omega arith)) (λ o.
                            >>=-ne-err (word bytes 36) _ (word-ne bytes 36 (omega arith)) (λ p.
                              >>=-ne-err (collect n 0 40 28 (section_row bytes)) _
                                (collect-ne _ _ _ _ _ (section_row-ne bytes))
                                (λ ss.
                                  >>=-ne-err (loader_of bytes (first_loader ss)) _
                                    (loader_of-ne bytes (first_loader ss)) (λ l e. cc)))))))))))))))
