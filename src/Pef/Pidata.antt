-- ===== src/Pef/Pidata.antt =====
-- pef.py, PEF.pidata and PEF.section_image: the expansion of pattern-initialised data. The list of
-- decoded instructions and their counts, which `pidata` returns for inspection, is left out.
pub mod Image
use cwhost.Base.{
  ℕ, zero, suc, ◌+◌, ◌*◌, ◌/◌, ◌%◌, ◌-◌, Bool, true, false, ◌&&◌, Option, none, some, List, [], ◌∷◌,
  ◌++◌, length, take, drop, get_elem?, replicate, ltb, ◌==◌, not, if◌then◌else◌,
}
use cwhost.Base.Result.{Result, ok, err, or_raise, ◌>>=◌}
use cwhost.Base.Bytes.{Bytes, slice}
use cwhost.Pef.{PefError, truncated_varint, size_mismatch, index_error, out_of_fuel}
use cwhost.Pef.Container.{Section, pattern_initialized_data, raw_bytes}
use cwhost.Pef.Varint.{varint}

-- raw * n
unfoldable pub copies : ℕ → Bytes → Bytes
copies zero raw = []
copies (suc n) raw = raw ++ copies n raw

-- Opcode 3's loop: before each custom part its common part, from the custom part at `i` on.
unfoldable pub interleave : ℕ → Bytes → ℕ → Bytes → ℕ → Bytes
interleave zero common custom packed i = []
interleave (suc n) common custom packed i =
    common ++ (slice packed i (i + custom) ++ interleave n common custom packed (i + custom))

abbrev pub number : Bytes → ℕ → Result PefError (ℕ × ℕ)
number packed i = or_raise (varint packed i) truncated_varint

-- Opcodes 3 and 4 read the common size again where the count is 0.
abbrev pub common_size : ℕ → Bytes → ℕ → Result PefError (ℕ × ℕ)
common_size zero packed i = number packed i
common_size (suc n) packed i = ok (suc n, i)

-- One instruction behind its opcode and count: the position behind it, and what it puts out.
unfoldable pub operation : ℕ → ℕ → Bytes → ℕ → Result PefError (ℕ × Bytes)
unfolding copies interleave
operation zero count packed i = ok (i, replicate count 0)
operation (suc zero) count packed i = ok (i + count, slice packed i (i + count))
operation (suc (suc zero)) count packed i = do
  (repeats, j) ← number packed i
  ok (j + count, copies (repeats + 1) (slice packed j (j + count)))
operation (suc (suc (suc zero))) count packed i = do
  (common, j) ← common_size count packed i
  (custom, k) ← number packed j
  (repeats, l) ← number packed k
  let block = slice packed l (l + common)
  ok (l + common + custom * repeats, interleave repeats block custom packed (l + common) ++ block)
operation (suc (suc (suc (suc zero)))) count packed i = do
  (common, j) ← common_size count packed i
  (custom, k) ← number packed j
  (repeats, l) ← number packed k
  let customs = slice packed l (l + custom * repeats)
  ok (
    l + custom * repeats,
    interleave repeats (replicate common 0) custom customs 0 ++ replicate common 0,
  )
operation (suc (suc (suc (suc (suc _))))) count packed i = ok (i, [])

abbrev pub count_of : ℕ → Bytes → ℕ → Result PefError (ℕ × ℕ)
count_of byte packed i = if byte % 32 == 0 then number packed i else ok (byte % 32, i)

-- A round of the loop on the byte at `i`.
unfoldable pub round : ℕ → Bytes → ℕ → Result PefError (ℕ × Bytes)
unfolding operation
round byte packed i = do
  (count, j) ← count_of byte packed (i + 1)
  operation (byte / 32) count packed j

-- The loop, on fuel: every round reads a byte.
unfoldable pub expand : ℕ → Bytes → ℕ → ℕ → Bytes → Result PefError Bytes
unfolding round
expand zero packed unpacked_size i output = err out_of_fuel
expand (suc fuel) packed unpacked_size i output = elim (get_elem? packed i) [
  | none ↦ ok output
  | some byte ↦
      let next = (do
        (j, bytes) ← round byte packed i
        expand fuel packed unpacked_size j (output ++ bytes)) in
      if ltb (length output) unpacked_size then next else ok output
]

-- the check of the length, and the padding
abbrev pub padded : ℕ → ℕ → Bytes → Result PefError Bytes
padded unpacked_size total_size output =
    if length output == unpacked_size
    then ok (output ++ replicate (total_size - length output) 0)
    else err size_mismatch

-- PEF.pidata from the packed bytes of the section on: the field `expanded`
unfoldable pub expansion : Bytes → ℕ → ℕ → Result PefError Bytes
unfolding expand
expansion packed unpacked_size total_size = do
  output ← expand (length packed + 1) packed unpacked_size 0 []
  padded unpacked_size total_size output

-- image[:total_size].ljust(total_size, b"\0")
unfoldable pub fit_image : ℕ → Bytes → Bytes
fit_image total_size image =
    take total_size image ++ replicate (total_size - length (take total_size image)) 0

-- the first section of pattern-initialised data
abbrev pub first_pattern : List Section → Option Section
first_pattern [] = none
first_pattern (s ∷ ss) = elim s.kind [ pattern_initialized_data ↦ some s | _ ↦ first_pattern ss ]

abbrev pub expand_section : Bytes → Option Section → Result PefError Bytes
expand_section container none = ok []
expand_section container (some s) =
    raw_bytes container s >>= λ packed. expansion packed s.unpacked_size s.total_size

-- PEF.pidata: whichever section is asked for, it expands the first one of its kind.
unfoldable pub pidata : Bytes → List Section → Result PefError Bytes
unfolding expansion raw_bytes
pidata container sections = expand_section container (first_pattern sections)

-- what `section_image` cuts and pads
abbrev pub image_of : Bytes → List Section → Section → Result PefError Bytes
image_of container sections s = elim s.kind [
  | pattern_initialized_data ↦ pidata container sections
  | _ ↦ raw_bytes container s
]

-- PEF.section_image
unfoldable pub section_image : Bytes → List Section → ℕ → Result PefError Bytes
unfolding pidata fit_image raw_bytes
section_image container sections index = do
  s ← or_raise (get_elem? sections index) index_error
  image ← image_of container sections s
  ok (fit_image s.total_size image)
