-- ===== src/Abi.antt =====
-- abi.py, class Struct: the layout of C structures that cross the guest boundary.
pub mod Layout
pub mod Structs
pub mod Scalars
use Prim.Native.String.{String}
use text.Mathlib.Text.{◌==◌ as str_eq}
use cwhost.Base.{
  ℕ, zero, suc, ◌+◌, ◌-◌, ◌*◌, ◌/◌, min, Bool, true, false, ◌||◌, Option, none, some, List, [], ◌∷◌,
  if◌then◌else◌,
}
use cwhost.Base.Result.{Result, ok, err}

pub data Scalar : Type 0 where
  u8 s8 u16 s16 u32 s32 u64 s64 ptr ostype boolean : Scalar

-- _SCALARS, the sizes; the alignment of each scalar is its size
unfoldable pub scalar_size : Scalar → ℕ
scalar_size u8 = 1
scalar_size s8 = 1
scalar_size u16 = 2
scalar_size s16 = 2
scalar_size u32 = 4
scalar_size s32 = 4
scalar_size u64 = 8
scalar_size s64 = 8
scalar_size ptr = 4
scalar_size ostype = 4
scalar_size boolean = 1

pub data Packing : Type 0 where
  mac68k power : Packing

-- A field's declaration: `"u32"`, `"u8[80]"` or another structure.
mutual
  pub data FieldType : Type 0 where
    scalar : Scalar → FieldType
    array : Scalar → ℕ → FieldType
    nested : Struct → FieldType

  pub data Fields : Type 0 where
    end : Fields
    field : String → FieldType → Fields → Fields

  pub data Struct : Type 0 where
    struct : String → Packing → Fields → Struct

abbrev pub packing_cap : Packing → ℕ
packing_cap mac68k = 2
packing_cap power = 4

-- _align_up
unfoldable pub align_up : ℕ → ℕ → ℕ
align_up value align = (value + align - 1) / align * align

-- `self.align`
abbrev pub struct_align : Struct → ℕ
struct_align (struct _ packing _) = packing_cap packing

-- the alignment that Struct._resolve_type gives
abbrev pub type_align : ℕ → FieldType → ℕ
type_align cap (scalar k) = min (scalar_size k) cap
type_align cap (array k _) = min (scalar_size k) cap
type_align cap (nested s) = struct_align s

-- The sizes: `type_size` is that of Struct._resolve_type, `cursor_after` runs the cursor of
-- Struct.__init__ over the fields, `struct_size` is `self.size`.
unfoldable mutual
  unfolding align_up scalar_size

  pub type_size : FieldType → ℕ
  type_size (scalar k) = scalar_size k
  type_size (array k n) = scalar_size k * n
  type_size (nested s) = struct_size s

  pub cursor_after : Fields → ℕ → ℕ → ℕ
  cursor_after end cap cursor = cursor
  cursor_after (field _ t rest) cap cursor =
      cursor_after rest cap (align_up cursor (type_align cap t) + type_size t)

  pub struct_size : Struct → ℕ
  struct_size (struct _ packing fields) =
      align_up (cursor_after fields (packing_cap packing) 0) (packing_cap packing)

-- an entry of `self._layout`
pub record Slot : Type 0 where
  pub name : String
  pub offset : ℕ
  pub type : FieldType

-- the loop of Struct.__init__, from `cursor` on
unfoldable pub layout_from : ℕ → ℕ → Fields → List Slot
unfolding align_up scalar_size type_size
layout_from cap cursor end = []
layout_from cap cursor (field name t rest) =
    let offset = align_up cursor (type_align cap t) in
    record { name = name; offset = offset; type = t } ∷ layout_from cap (offset + type_size t) rest

unfoldable pub layout : Struct → List Slot
unfolding layout_from
layout (struct _ packing fields) = layout_from (packing_cap packing) 0 fields

-- Struct.offset; `none` is the KeyError
abbrev pub find_offset : List Slot → String → Option ℕ
find_offset [] name = none
find_offset (slot ∷ slots) name =
    if str_eq slot.name name then some slot.offset else find_offset slots name

unfoldable pub offset : Struct → String → Option ℕ
unfolding layout
offset s name = find_offset (layout s) name

abbrev pub declares : String → Fields → Bool
declares name end = false
declares name (field other _ rest) = str_eq other name || declares name rest

-- the check for a duplicate field
unfoldable pub distinct_fields : Fields → Bool
distinct_fields end = true
distinct_fields (field name _ rest) = if declares name rest then false else distinct_fields rest
