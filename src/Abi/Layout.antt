-- ===== src/Abi/Layout.antt =====
-- The layout of a structure: fields stand in order, aligned, apart and inside of the structure.
use Prim.Native.String.{String}
use cwhost.Base.{ℕ, ◌+◌, ◌%◌, ◌≤◌, ◌<◌, ◌≡◌, refl, List, [], ◌∷◌, arith}
use cwhost.Abi.{
  Scalar, u8, scalar_size, Packing, mac68k, power, FieldType, scalar, array, nested, Fields, end,
  field, Struct, struct, packing_cap, align_up, struct_align, type_align, type_size, cursor_after,
  struct_size, Slot, layout_from, layout,
}

align_up-le : (v a : ℕ) → 0 < a → v ≤ align_up v a
unfolding align_up
align_up-le v a h = grind arith

align_up-mod : (v a : ℕ) → 0 < a → align_up v a % a ≡ 0
unfolding align_up
align_up-mod v a h = grind arith

align_up-lt : (v a : ℕ) → 0 < a → align_up v a < v + a
unfolding align_up
align_up-lt v a h = grind arith

packing_cap-pos : (p : Packing) → 0 < packing_cap p
packing_cap-pos mac68k = omega arith
packing_cap-pos power = omega arith

scalar_size-pos : (k : Scalar) → 0 < scalar_size k
unfolding scalar_size
scalar_size-pos u8 = omega arith
scalar_size-pos _ = omega arith

type_align-pos : (cap : ℕ) (t : FieldType) → 0 < cap → 0 < type_align cap t
type_align-pos cap (scalar k) h = omega (arith, scalar_size-pos k)
type_align-pos cap (array k n) h = omega (arith, scalar_size-pos k)
type_align-pos cap (nested (struct name p fields)) h = packing_cap-pos p

-- From `cursor` on the slots follow one another: each is aligned for its type, starts behind the
-- end of the one before, with less padding than its alignment, and the last ends at `stop`.
abbrev pub InOrder : ℕ → ℕ → List Slot → ℕ → Type 0
InOrder cap cursor [] stop = cursor ≡ stop
InOrder cap cursor (slot ∷ slots) stop =
    (cursor ≤ slot.offset)
    × (slot.offset < cursor + type_align cap slot.type)
    × (slot.offset % type_align cap slot.type ≡ 0)
    × InOrder cap (slot.offset + type_size slot.type) slots stop

layout_from-InOrder :
    (cap cursor : ℕ) (fields : Fields)
    → 0 < cap
    → InOrder cap cursor (layout_from cap cursor fields) (cursor_after fields cap cursor)
unfolding layout_from type_size
layout_from-InOrder cap cursor end h = refl
layout_from-InOrder cap cursor (field name t rest) h =
    let p = type_align-pos cap t h in
    (
      align_up-le cursor (type_align cap t) p,
      align_up-lt cursor (type_align cap t) p,
      align_up-mod cursor (type_align cap t) p,
      layout_from-InOrder cap (align_up cursor (type_align cap t) + type_size t) rest h,
    )

-- The fields lie in order from 0 on, the last ends inside, and the size is the least multiple of
-- the alignment that holds them.
pub record LaidOut (cap : ℕ) (s : Struct) : Type 0 where
  pub stop : ℕ
  pub in_order : InOrder cap 0 (layout s) stop
  pub inside : stop ≤ struct_size s
  pub least : struct_size s < stop + struct_align s
  pub whole : struct_size s % struct_align s ≡ 0

-- In every structure the fields follow one another from 0 on, each aligned for its type and with
-- less padding before it than its alignment, and the size is the least multiple of the structure's
-- alignment that holds them all.
pub layout-LaidOut :
    (name : String) (p : Packing) (fields : Fields) → LaidOut (packing_cap p) (struct name p fields)
unfolding layout type_size
layout-LaidOut name p fields =
    let c = packing_cap-pos p in
    let end_of_fields = cursor_after fields (packing_cap p) 0 in
    record {
      stop = end_of_fields;
      in_order = layout_from-InOrder (packing_cap p) 0 fields c;
      inside = align_up-le end_of_fields (packing_cap p) c;
      least = align_up-lt end_of_fields (packing_cap p) c;
      whole = align_up-mod end_of_fields (packing_cap p) c;
    }
