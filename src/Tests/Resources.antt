-- ===== src/Tests/Resources.antt =====
-- resources.py: a fork with two types and a chain of two files.
use cwhost.Base.{
  ℕ, ◌+◌, ◌*◌, ◌≡◌, ◌≢◌, ◌≤◌, ◌<◌, refl, Bool, true, false, none, some, List, [], ◌∷◌, ◌++◌, take,
  replicate, arith,
}
use cwhost.Base.Int.{ℤ, pos, negsuc}
use cwhost.Base.Result.{Result, ok, err, ◌>>=◌}
use cwhost.Base.Bytes.{Bytes, be16, be32, slice}
use cwhost.Base.Dict.{has_key}
use cwhost.Base.Text.{Tables}
use cwhost.Resources.{
  ResourceError, ResourceFork, struct_error, truncated_header, raw, resource_at, parse_map, parse,
  payload_of, str_list,
}
use cwhost.Resources.Bounds.{parse-within_input}
use cwhost.Resources.Sound.{Parsed, parse-Parsed}
use cwhost.Resources.Complete.{parse_map-keeps_references}
use cwhost.Resources.Strings.{packed, str_list-packed}
use cwhost.Resources.Chain.{
  Chain, chain_new, use_file, check, open_file, get_from_chain, get_ind_string,
}
use cwhost.Resources.Chain.Invariant.{
  IsChain, Reachable, started, opened, used, Reachable-IsChain, open_file-least,
}
use cwhost.Resources.Chain.Search.{newest, upto, get_from_chain-newest}

abbrev str_type : Bytes
str_type = b'S' ∷ b'T' ∷ b'R' ∷ b'#' ∷ []

abbrev two_strings : List Bytes
two_strings = (b'a' ∷ b'b' ∷ []) ∷ (b'c' ∷ []) ∷ []

abbrev list_payload : Bytes
list_payload = be16 2 ++ (packed two_strings ++ [])

abbrev reference : ℕ → ℕ → Bytes
reference id offset = be16 id ++ (be16 0xFFFF ++ (0 ∷ 0 ∷ (be16 offset ++ be32 0)))

-- the data of a fork: a payload of three bytes and a list of strings
abbrev data_area : Bytes
data_area = be32 3 ++ (1 ∷ 2 ∷ 3 ∷ (be32 7 ++ list_payload))

-- its map: type CODE with resource -1, type STR# with resource 128
abbrev map_area : Bytes
map_area =
    replicate 24 0
    ++ (be16 28
        ++ (be16 70
            ++ (be16 1
                ++ (b'C'
                    ∷ b'O'
                    ∷ b'D'
                    ∷ b'E'
                    ∷ (be16 0
                        ++ (be16 18
                            ++ (str_type
                                ++ (be16 0
                                    ++ (be16 30 ++ (reference 0xFFFF 0 ++ reference 128 7))))))))))

abbrev fork_bytes : Bytes
fork_bytes = be32 16 ++ (be32 34 ++ (be32 18 ++ (be32 70 ++ (data_area ++ map_area))))

abbrev parsed_fork : ResourceFork
parsed_fork = record {
  data_bytes = fork_bytes;
  resources =
      ((b'C' ∷ b'O' ∷ b'D' ∷ b'E' ∷ []), (negsuc 0, 1 ∷ 2 ∷ 3 ∷ []) ∷ [])
      ∷ (str_type, (pos 128, list_payload) ∷ [])
      ∷ [];
}

fork_parsed : parse fork_bytes ≡ ok parsed_fork
unfolding parse
fork_parsed = refl

truncated : parse (take 15 fork_bytes) ≡ err truncated_header
unfolding parse
truncated = refl

parse-within_input_example : parse (take 40 fork_bytes) ≢ err struct_error
parse-within_input_example = parse-within_input (take 40 fork_bytes)

parse-Parsed_example : Parsed fork_bytes parsed_fork
parse-Parsed_example = parse-Parsed fork_bytes fork_parsed

str_list-packed_example : str_list (pos 128) parsed_fork ≡ ok two_strings
str_list-packed_example = str_list-packed (pos 128) parsed_fork two_strings [] (omega arith) refl

parsed_map : parse_map fork_bytes 16 34 18 70 ≡ ok parsed_fork
unfolding parse_map
parsed_map = refl

-- the only reference of the second type
parse_map-keeps_references_example :
    let ty = slice fork_bytes (34 + 28 + 2 + 8 * 1) (34 + 28 + 2 + 8 * 1 + 4) in
    (id : ℤ) × (payload : Bytes) × (resource_at fork_bytes 16
        (16 + 18)
        (34 + 28)
        (34 + 70)
        ty
        (34 + 28 + 30 + 0 * 12)
      ≡ ok (id, payload))
    × (payload_of ty id parsed_fork ≡ some payload)
parse_map-keeps_references_example =
    parse_map-keeps_references fork_bytes 16 34 18 70 parsed_map 28 1 refl refl 1 (omega arith) 0 30
      refl refl 0 (omega arith)

-- a node is the bytes of its resource fork
abbrev own : Bytes → Bool
own node = true

abbrev fork_of : Bytes → Result ResourceError Bytes
fork_of node = ok node

-- nothing is outside of ASCII here
abbrev tables : Tables
tables = record { casefold = λ s. s; int_of = λ s. none; mac_roman = λ s. none }

abbrev one_file : Chain Bytes
one_file = record {
  files = (1, parsed_fork) ∷ [];
  nodes = (1, fork_bytes) ∷ [];
  order = 1 ∷ [];
  current = some 1;
}

abbrev two_files : Chain Bytes
two_files = record {
  files = (1, parsed_fork) ∷ (2, parsed_fork) ∷ [];
  nodes = (1, fork_bytes) ∷ (2, fork_bytes) ∷ [];
  order = 1 ∷ 2 ∷ [];
  current = some 2;
}

first_opened : open_file own fork_of fork_bytes chain_new ≡ ok (1, one_file)
unfolding open_file
first_opened = refl

second_opened : open_file own fork_of fork_bytes one_file ≡ ok (2, two_files)
unfolding open_file
second_opened = refl

first_used : use_file 1 two_files ≡ ok (record two_files { current = some 1 })
unfolding use_file
first_used = refl

reachable : Reachable own fork_of two_files
reachable = opened fork_bytes (opened fork_bytes started first_opened) second_opened

Reachable-IsChain_example : IsChain (record two_files { current = some 1 })
Reachable-IsChain_example = Reachable-IsChain own fork_of (used 1 reachable first_used)

open_file-least_example :
    (1 ≤ 2)
    × (has_key 2 one_file.files ≡ false)
    × ((j : ℕ) → 1 ≤ j → j < 2 → has_key j one_file.files ≡ true)
    × (two_files.current ≡ some 2)
    × (two_files.order ≡ one_file.order ++ 2 ∷ [])
    × (check 2 two_files ≡ (fork_of fork_bytes >>= parse))
open_file-least_example =
    open_file-least own fork_of fork_bytes one_file
      (Reachable-IsChain own fork_of (opened fork_bytes started first_opened)) second_opened

get_from_chain-newest_example :
    get_from_chain tables (raw str_type) (pos 128) two_files
    ≡ ok (newest str_type (pos 128) (upto 2 two_files.order) two_files.files)
get_from_chain-newest_example =
    get_from_chain-newest tables (raw str_type) (pos 128) two_files refl 2
      (Reachable-IsChain own fork_of reachable) refl

second_string : get_ind_string tables (pos 128) (pos 2) two_files ≡ ok (b'c' ∷ [])
unfolding get_ind_string
second_string = refl
