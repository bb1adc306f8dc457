-- ===== src/Tests/Structures.antt =====
-- abi.py: the layouts that tests/test_abi.py pins, and encoded fields.
use cwhost.Base.{ℕ, ◌≡◌, refl, none, some, [], ◌∷◌}
use cwhost.Base.Int.{pos, negsuc}
use cwhost.Base.Result.{ok, err}
use cwhost.Abi.{
  s16, s32, scalar_size, Fields, field, end, scalar, power, struct, struct_size, offset,
  packing_cap,
}
use cwhost.Abi.Structs.{hfs_uni_str255, cw_file_spec, cw_file_info, drop_in_flags}
use cwhost.Abi.Layout.{LaidOut, layout-LaidOut}
use cwhost.Abi.Scalars.{scalar_encode, scalar_decode, number, overflow, scalar_decode-encode}

sizes :
    (struct_size hfs_uni_str255 ≡ 512)
    × (struct_size cw_file_spec ≡ 592)
    × (struct_size cw_file_info ≡ 614)
    × (struct_size drop_in_flags ≡ 18)
unfolding struct_size
sizes = (refl, refl, refl, refl)

offsets :
    (offset drop_in_flags "dropinflags" ≡ some 8)
    × (offset cw_file_info "filedata" ≡ some 8)
    × (offset cw_file_info "filespec" ≡ some 20)
    × (offset cw_file_info "nosuchfield" ≡ none)
unfolding offset
offsets = (refl, refl, refl, refl)

encoded : scalar_encode s16 (negsuc 1) ≡ ok (255 ∷ 254 ∷ [])
unfolding scalar_encode
encoded = refl

too_wide : scalar_encode s16 (pos 32768) ≡ err overflow
unfolding scalar_encode
too_wide = refl

scalar_decode-encode_example :
    (scalar_decode s16 (255 ∷ 254 ∷ []) ≡ ok (number (negsuc 1)))
    × (◌≡◌ {A = ℕ} 2 (scalar_size s16))
scalar_decode-encode_example =
    scalar_decode-encode s16 (negsuc 1) (255 ∷ 254 ∷ []) (λ e. cc) encoded

abbrev two_fields : Fields
two_fields = field "vRefNum" (scalar s16) (field "parID" (scalar s32) end)

layout-LaidOut_example : LaidOut (packing_cap power) (struct "Pair" power two_fields)
layout-LaidOut_example = layout-LaidOut "Pair" power two_fields
