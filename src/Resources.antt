-- ===== src/Resources.antt =====
-- resources.py, class ResourceFork: parsing a resource fork, and the resources in it.
pub mod Bounds
pub mod Sound
pub mod Strings
pub mod Complete
pub mod Chain
use Prim.Native.String.{String}
use cwhost.Base.{
  ℕ, zero, suc, ◌+◌, ◌*◌, ◌-◌, Bool, true, false, ◌||◌, not, Option, none, some, List, [], ◌∷◌, map,
  length, get_elem?, ltb, leb, ◌==◌, if◌then◌else◌,
}
use cwhost.Base.Int.{ℤ, pos, negsuc}
use cwhost.Base.Result.{Result, ok, err, or_raise, raise_if, ◌>>=◌, ◌>>◌}
use cwhost.Base.Bytes.{Bytes, u16_at, u32_at, from_be, slice}
use cwhost.Base.Map.{Map, lookup, has_key, insert, int_eq, bytes_eq}
use cwhost.Base.Text.{Tables}

-- One constructor for each `raise HostError`, and one each for the exceptions of `struct`, of
-- indexing and of list.index and list.remove.
pub data ResourceError : Type 0 where
  not_mac_roman type_length truncated_header bad_offsets truncated_map bad_lists : ResourceError
  truncated_types : ResourceError
  bad_references : Bytes → ResourceError
  data_offset_invalid data_truncated duplicate : Bytes → ℤ → ResourceError
  missing_list truncated_list : ℤ → ResourceError
  truncated_string : ℤ → ℕ → ResourceError
  foreign_node no_current : ResourceError
  unknown_file : ℕ → ResourceError
  bad_index no_string : ℤ → ResourceError
  struct_error index_error value_error : ResourceError

-- a resource type, `bytes | str`
pub data TypeName : Type 0 where
  raw : Bytes → TypeName
  text : String → TypeName

abbrev pub checked_type : Bytes → Result ResourceError Bytes
checked_type value = if length value == 4 then ok value else err type_length

-- the resources of a fork by type and id
abbrev pub Resources : Type 0
Resources = Map Bytes (Map ℤ Bytes)

pub record ResourceFork : Type 0 where
  pub data_bytes : Bytes
  pub resources : Resources

abbrev pub half : Bytes → ℕ → Result ResourceError ℕ
half bytes i = or_raise (u16_at bytes i) struct_error

abbrev pub word : Bytes → ℕ → Result ResourceError ℕ
word bytes i = or_raise (u32_at bytes i) struct_error

-- `struct` with ">h"
abbrev pub signed_half : ℕ → ℤ
signed_half n = if ltb n 0x8000 then pos n else negsuc (0xFFFF - n)

abbrev pub or_empty : Option (Map ℤ Bytes) → Map ℤ Bytes
or_empty none = []
or_empty (some typed) = typed

-- d.get(key, {})
abbrev pub typed_of : Bytes → Resources → Map ℤ Bytes
typed_of resource_type resources = or_empty (lookup resource_type resources)

-- `parse` behind its header: the bytes, where the data lies, and where the type list and the map end.
module _ (bytes : Bytes) (data_offset data_end type_start map_end : ℕ) where
  -- the resource of the reference at `ref`
  unfoldable pub resource_at : Bytes → ℕ → Result ResourceError (ℤ × Bytes)
  resource_at resource_type ref = do
    resource_id ← half bytes ref
    let data_position = data_offset + from_be 0 (slice bytes (ref + 5) (ref + 8))
    raise_if (ltb data_end (data_position + 4))
        (data_offset_invalid resource_type (signed_half resource_id))
    amount ← word bytes data_position
    raise_if (ltb data_end (data_position + 4 + amount))
        (data_truncated resource_type (signed_half resource_id))
    ok (signed_half resource_id, slice bytes (data_position + 4) (data_position + 4 + amount))

  -- The loop over the references of a type: `rounds` of them from `index` on are left.
  unfoldable pub read_references :
      ℕ → ℕ → Bytes → ℕ → Map ℤ Bytes → Result ResourceError (Map ℤ Bytes)
  unfolding resource_at
  read_references zero index resource_type refs_start typed = ok typed
  read_references (suc rounds) index resource_type refs_start typed = do
    (resource_id, payload) ← resource_at resource_type (refs_start + index * 12)
    raise_if (has_key resource_id typed) (duplicate resource_type resource_id)
    read_references rounds (index + 1) resource_type refs_start (insert resource_id payload typed)

  -- The loop over the type list.
  unfoldable pub read_types : ℕ → ℕ → Resources → Result ResourceError Resources
  unfolding read_references
  read_types zero index resources = ok resources
  read_types (suc rounds) index resources = do
    let entry = type_start + 2 + 8 * index
    let resource_type = slice bytes entry (entry + 4)
    count ← half bytes (entry + 4)
    ref_offset ← half bytes (entry + 6)
    let refs_start = type_start + ref_offset
    raise_if (ltb refs_start type_start || ltb map_end (refs_start + 12 * (count + 1)))
        (bad_references resource_type)
    typed ←
        read_references (count + 1) 0 resource_type refs_start (typed_of resource_type resources)
    read_types rounds (index + 1) (insert resource_type typed resources)

-- `parse` with the header's numbers: the places of the data and of the map
unfoldable pub parse_map : Bytes → ℕ → ℕ → ℕ → ℕ → Result ResourceError ResourceFork
unfolding read_types
parse_map bytes data_offset map_offset data_length map_length = do
  raise_if
      (ltb (length bytes) (data_offset + data_length)
        || ltb (length bytes) (map_offset + map_length))
      bad_offsets
  raise_if (ltb map_length 30) truncated_map
  type_list_offset ← half bytes (map_offset + 24)
  name_list_offset ← half bytes (map_offset + 26)
  let type_start = map_offset + type_list_offset
  let map_end = map_offset + map_length
  raise_if (ltb map_end (type_start + 2) || ltb map_end (map_offset + name_list_offset)) bad_lists
  type_count_minus_one ← half bytes type_start
  let type_count = type_count_minus_one + 1
  raise_if (ltb map_end (type_start + 2 + 8 * type_count)) truncated_types
  resources ←
      read_types bytes data_offset (data_offset + data_length) type_start map_end type_count 0 []
  ok (record { data_bytes = bytes; resources = resources })

-- ResourceFork.parse
unfoldable pub parse : Bytes → Result ResourceError ResourceFork
unfolding parse_map
parse bytes = do
  raise_if (ltb (length bytes) 16) truncated_header
  data_offset ← word bytes 0
  map_offset ← word bytes 4
  data_length ← word bytes 8
  map_length ← word bytes 12
  parse_map bytes data_offset map_offset data_length map_length

-- ResourceFork.types
abbrev pub types : ResourceFork → List Bytes
types fork = map (λ entry. entry.0) fork.resources

-- the payload of a resource whose type has been checked
abbrev pub payload_of : Bytes → ℤ → ResourceFork → Option Bytes
payload_of resource_type resource_id fork =
    lookup resource_id (typed_of resource_type fork.resources)

-- The loop of `str_list`: `rounds` strings from `index` on are left.
unfoldable pub read_strings : ℤ → ℕ → ℕ → ℕ → Bytes → Result ResourceError (List Bytes)
read_strings resource_id zero index position payload = ok []
read_strings resource_id (suc rounds) index position payload = do
  raise_if (leb (length payload) position) (truncated_string resource_id (index + 1))
  amount ← or_raise (get_elem? payload position) index_error
  raise_if (ltb (length payload) (position + 1 + amount)) (truncated_string resource_id (index + 1))
  rest ← read_strings resource_id rounds (index + 1) (position + 1 + amount) payload
  ok (slice payload (position + 1) (position + 1 + amount) ∷ rest)

abbrev pub strings_of : ℤ → Bytes → Result ResourceError (List Bytes)
strings_of resource_id payload = do
  raise_if (ltb (length payload) 2) (truncated_list resource_id)
  count ← half payload 0
  read_strings resource_id count 0 2 payload

-- ResourceFork.str_list
unfoldable pub str_list : ℤ → ResourceFork → Result ResourceError (List Bytes)
unfolding read_strings
str_list resource_id fork =
    or_raise (payload_of (b'S' ∷ b'T' ∷ b'R' ∷ b'#' ∷ []) resource_id fork)
      (missing_list resource_id)
    >>= strings_of resource_id

module _ (t : Tables) where
  open t use {mac_roman}

  -- _type_bytes
  abbrev pub type_bytes : TypeName → Result ResourceError Bytes
  type_bytes (raw value) = checked_type value
  type_bytes (text value) = or_raise (mac_roman value) not_mac_roman >>= checked_type

  -- ResourceFork.ids
  abbrev pub ids : TypeName → ResourceFork → Result ResourceError (List ℤ)
  ids name fork = type_bytes name >>= λ resource_type.
      ok (map (λ entry. entry.0) (typed_of resource_type fork.resources))

  -- ResourceFork.get
  abbrev pub get : TypeName → ℤ → ResourceFork → Result ResourceError (Option Bytes)
  get name resource_id fork =
      type_bytes name >>= λ resource_type. ok (payload_of resource_type resource_id fork)
