-- ===== src/Pef/Container/Tables.antt =====
-- The loader's tables that `PEF.__init__` keeps: their lengths, their order and where they end.
use cwhost.Base.{ℕ, zero, suc, ◌+◌, ◌*◌, ◌≤◌, ◌≡◌, some, List, length, get_elem?, ltb, arith}
use cwhost.Base.Result.{Result, ok, raise_if, ◌>>◌, >>=-eq-ok}
use cwhost.Base.Bytes.{Bytes}
use cwhost.Pef.{
  PefError, truncated_libraries, truncated_imports, truncated_relocs, truncated_loader,
}
use cwhost.Pef.Container.{
  word, collect, parse_loader_header, LoaderHeader, Library, RelocHeader, library_row, Import,
  import_row, reloc_row, Loader, parse_loader,
}

module _ {A : Type 0} where
  -- a loop that ends has as many rows as rounds
  length-collect :
      (rounds index position stride : ℕ) (row : ℕ → ℕ → Result PefError A) {rows : List A}
      → collect rounds index position stride row ≡ ok rows
      → length rows ≡ rounds
  length-collect zero index position stride row e = ground arith
  length-collect (suc rounds) index position stride row e =
      let (first, _, e1) = >>=-eq-ok (row index position) _ e in
      let (rest, e2, e3) =
        >>=-eq-ok (collect rounds (index + 1) (position + stride) stride row) _ e1 in
      let ih = length-collect rounds (index + 1) (position + stride) stride row e2 in ground arith

  -- the row at `k` was read with the index `k` and at the position of that row
  get_elem?-collect :
      (rounds index position stride : ℕ) (row : ℕ → ℕ → Result PefError A) {rows : List A} (k : ℕ)
      {a : A}
      → collect rounds index position stride row ≡ ok rows
      → get_elem? rows k ≡ some a
      → row (index + k) (position + stride * k) ≡ ok a
  get_elem?-collect zero index position stride row k e h = ground arith
  get_elem?-collect (suc rounds) index position stride row zero e h =
      let (first, e0, e1) = >>=-eq-ok (row index position) _ e in
      let (rest, e2, e3) =
        >>=-eq-ok (collect rounds (index + 1) (position + stride) stride row) _ e1 in
      let i : index + 0 ≡ index = omega arith in
      let p : position + stride * 0 ≡ position = omega arith in rw (i, p) (ground arith)
  get_elem?-collect (suc rounds) index position stride row (suc k) {a} e h =
      let (first, e0, e1) = >>=-eq-ok (row index position) _ e in
      let (rest, e2, e3) =
        >>=-eq-ok (collect rounds (index + 1) (position + stride) stride row) _ e1 in
      let next : get_elem? rest k ≡ some a = ground arith in
      let ih = get_elem?-collect rounds (index + 1) (position + stride) stride row k e2 next in
      let i : index + suc k ≡ index + 1 + k = omega arith in
      let p : position + stride * suc k ≡ position + stride + stride * k = grind arith in
      rw (i, p) ih

  -- rows that each end inside the bytes end inside them together
  collect-end :
      (size rounds index position stride : ℕ) (row : ℕ → ℕ → Result PefError A) {rows : List A}
      → ((i p : ℕ) (a : A) → row i p ≡ ok a → p + stride ≤ size)
      → position ≤ size
      → collect rounds index position stride row ≡ ok rows
      → position + stride * rounds ≤ size
  collect-end size zero index position stride row inside start e = omega arith
  collect-end size (suc rounds) index position stride row inside start e =
      let (first, e0, e1) = >>=-eq-ok (row index position) _ e in
      let (rest, e2, e3) =
        >>=-eq-ok (collect rounds (index + 1) (position + stride) stride row) _ e1 in
      let ih =
        collect-end size rounds (index + 1) (position + stride) stride row inside
          (inside index position first e0) e2 in
      grind arith

-- a guard that passed
guarded-ok :
    {A : Type 0} (n m : ℕ) (e : PefError) (rest : Result PefError A) {a : A}
    → (raise_if (ltb n m) e >> rest) ≡ ok a
    → m ≤ n
guarded-ok n m e rest h = ground arith

-- the tables of a loader section have the sizes and the places that its header gives them
pub record Tabled (bytes : Bytes) (l : Loader) : Type 0 where
  pub header : parse_loader_header bytes ≡ ok l.header
  pub libraries : length l.libraries ≡ l.header.imported_library_count
  pub imports : length l.imports ≡ l.header.total_imported_symbol_count
  pub relocs : length l.reloc_headers ≡ l.header.reloc_section_count
  pub inside :
      56
        + 24 * l.header.imported_library_count
        + 4 * l.header.total_imported_symbol_count
        + 12 * l.header.reloc_section_count
      ≤ length bytes
  pub ordered : (k : ℕ) (i : Import) → get_elem? l.imports k ≡ some i → i.index ≡ k

import_row-index :
    (bytes : Bytes) (s : ℕ) (ls : List Library) (k p : ℕ) {i : Import}
    → import_row bytes s ls k p ≡ ok i
    → i.index ≡ k
unfolding import_row
import_row-index bytes s ls k p e =
    let (_, _, e1) = >>=-eq-ok (raise_if (ltb (length bytes) (p + 4)) truncated_imports) _ e in
    let (entry, _, e3) = >>=-eq-ok (word bytes p) _ e1 in cc

library_row-end :
    (bytes : Bytes) (s i p : ℕ) (l : Library)
    → library_row bytes s i p ≡ ok l
    → p + 24 ≤ length bytes
unfolding library_row
library_row-end bytes s i p l = guarded-ok (length bytes) (p + 24) truncated_libraries _

import_row-end :
    (bytes : Bytes) (s : ℕ) (ls : List Library) (i p : ℕ) (m : Import)
    → import_row bytes s ls i p ≡ ok m
    → p + 4 ≤ length bytes
unfolding import_row
import_row-end bytes s ls i p m = guarded-ok (length bytes) (p + 4) truncated_imports _

reloc_row-end :
    (bytes : Bytes) (i p : ℕ) (r : RelocHeader) → reloc_row bytes i p ≡ ok r → p + 12 ≤ length bytes
unfolding reloc_row
reloc_row-end bytes i p r = guarded-ok (length bytes) (p + 12) truncated_relocs _

parse_loader_header-end :
    (bytes : Bytes) (h : LoaderHeader) → parse_loader_header bytes ≡ ok h → 56 ≤ length bytes
unfolding parse_loader_header
parse_loader_header-end bytes h = guarded-ok (length bytes) 56 truncated_loader _

-- Where `parse_loader` succeeds, the libraries, imports and relocation headers are as many as the
-- header counts, their tables end inside of the section, and the import at `k` has the index `k`.
pub parse_loader-Tabled : (bytes : Bytes) (l : Loader) → parse_loader bytes ≡ ok l → Tabled bytes l
unfolding parse_loader
parse_loader-Tabled bytes l e =
    let (h, e0, e1) = >>=-eq-ok (parse_loader_header bytes) _ e in
    let (ls, e2, e3) =
      >>=-eq-ok
        (collect h.imported_library_count 0 56 24 (library_row bytes h.loader_strings_offset)) _
        e1 in
    let imports_at = 56 + 24 * h.imported_library_count in
    let row = import_row bytes h.loader_strings_offset ls in
    let (is, e4, e5) = >>=-eq-ok (collect h.total_imported_symbol_count 0 imports_at 4 row) _ e3 in
    let relocs_at = imports_at + 4 * h.total_imported_symbol_count in
    let (rs, e6, e7) =
      >>=-eq-ok (collect h.reloc_section_count 0 relocs_at 12 (reloc_row bytes)) _ e5 in
    let found : l ≡ record { header = h; libraries = ls; imports = is; reloc_headers = rs } = cc in
    let libraries_end =
      collect-end (length bytes) _ 0 56 24 (library_row bytes h.loader_strings_offset)
        (library_row-end bytes h.loader_strings_offset) (parse_loader_header-end bytes h e0) e2 in
    let imports_end =
      collect-end (length bytes) _ 0 imports_at 4 row
        (import_row-end bytes h.loader_strings_offset ls) libraries_end e4 in
    rw found (record {
      header = e0;
      libraries = length-collect _ _ _ _ _ e2;
      imports = length-collect _ _ _ _ _ e4;
      relocs = length-collect _ _ _ _ _ e6;
      inside =
          collect-end (length bytes) _ 0 relocs_at 12 (reloc_row bytes) (reloc_row-end bytes)
            imports_end e6;
      ordered = λ k i g.
          let read = get_elem?-collect _ 0 imports_at 4 row k e4 g in
          let numbered : i.index ≡ 0 + k =
            import_row-index bytes h.loader_strings_offset ls (0 + k) _ read in
          omega arith;
    })
