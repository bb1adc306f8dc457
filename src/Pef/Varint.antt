-- ===== src/Pef/Varint.antt =====
-- pef.py, varint: big-endian numbers of seven bits a byte, and the reader of NUL-terminated names.
use cwhost.Base.{
  ℕ, ◌+◌, ◌*◌, ◌%◌, ◌-◌, ◌≤◌, ◌<◌, ◌≡◌, refl, false, Option, none, some, [], ◌∷◌, ◌++◌, length,
  length-drop, drop, ltb, if◌then◌else◌, arith, ap, ◌∙◌,
}
use cwhost.Base.Bytes.{Bytes}

-- The loop of `varint` over the bytes from its position on: the value and how many bytes it read,
-- `none` where it raises PEFError.
unfoldable pub read_varint : ℕ → ℕ → Bytes → Option (ℕ × ℕ)
read_varint value used [] = none
read_varint value used (b ∷ rest) =
    let more = read_varint (value * 128 + b % 128) (used + 1) rest in
    if ltb b 128 then some (value * 128 + b % 128, used + 1) else more

abbrev pub from_position : ℕ → Option (ℕ × ℕ) → Option (ℕ × ℕ)
from_position i none = none
from_position i (some (value, used)) = some (value, i + used)

-- varint
unfoldable pub varint : Bytes → ℕ → Option (ℕ × ℕ)
unfolding read_varint
varint bytes i = from_position i (read_varint 0 0 (drop i bytes))

-- The format: the groups of seven bits, all but the last with the high bit set.
pub data Groups : Type 0 where
  last : (digit : ℕ) → digit < 128 → Groups
  more : (digit : ℕ) → digit < 128 → Groups → Groups

abbrev pub encode_groups : Groups → Bytes
encode_groups (last d _) = d ∷ []
encode_groups (more d _ g) = (128 + d) ∷ encode_groups g

abbrev pub groups_value : ℕ → Groups → ℕ
groups_value value (last d _) = value * 128 + d
groups_value value (more d _ g) = groups_value (value * 128 + d) g

read_varint_lem :
    (g : Groups) (value used : ℕ) (rest : Bytes)
    → read_varint value used (encode_groups g ++ rest)
      ≡ some (groups_value value g, used + length (encode_groups g))
unfolding read_varint
read_varint_lem (last d h) value used rest = ground arith
read_varint_lem (more d h g) value used rest =
    let here : ltb (128 + d) 128 ≡ false = ground arith in
    let low : (128 + d) % 128 ≡ d = omega arith in
    rw (here, low) (read_varint_lem g (value * 128 + d) (used + 1) rest ∙ ground arith)

-- Where the bytes from a position on start with an encoded number, `varint` reads the number there
-- and stops just behind it.
pub varint-encode :
    (g : Groups) (bytes rest : Bytes) (i : ℕ)
    → drop i bytes ≡ encode_groups g ++ rest
    → varint bytes i ≡ some (groups_value 0 g, i + length (encode_groups g))
unfolding varint
varint-encode g bytes rest i e =
    ap (λ bs. from_position i (read_varint 0 0 bs)) e
    ∙ ap (from_position i) (read_varint_lem g 0 0 rest)
    ∙ ground arith

read_varint-advances :
    (bytes : Bytes) (value used v n : ℕ)
    → read_varint value used bytes ≡ some (v, n)
    → (used < n) × (n ≤ used + length bytes)
unfolding read_varint
read_varint-advances [] value used v n e = absurd (ground arith)
read_varint-advances (b ∷ rest) value used v n e =
    ground (arith, read_varint-advances rest (value * 128 + b % 128) (used + 1) v n)

-- A number that was read took at least one byte, and none beyond the end.
pub varint-advances :
    (bytes : Bytes) (i v j : ℕ)
    → varint bytes i ≡ some (v, j)
    → (i < j) × (j ≤ i + (length bytes - i))
unfolding varint
varint-advances bytes i v j e = go (read_varint 0 0 (drop i bytes)) refl e
  where
    go :
        (r : Option (ℕ × ℕ))
        → read_varint 0 0 (drop i bytes) ≡ r
        → from_position i r ≡ some (v, j)
        → (i < j) × (j ≤ i + (length bytes - i))
    go none q h = absurd (ground arith)
    go (some (w, n)) q h =
        let a = read_varint-advances (drop i bytes) 0 0 w n q in
        let k : i + n ≡ j = ground arith in (omega arith, omega (arith, length-drop {0} i bytes))
