-- ===== src/Resources/Chain.antt =====
-- resources.py, class ResourceChain: the open resource files and the search through them. What a node
-- is, whether it belongs to the chain's file system, and the bytes of its resource fork, which
-- vfs.py reads from files, are parameters.
pub mod Search
pub mod Closing
pub mod Order
pub mod Numbers
pub mod Invariant
use cwhost.Base.{
  ℕ, zero, suc, ◌+◌, ◌-◌, Bool, true, false, ◌||◌, not, Option, none, some, List, [], ◌∷◌, ◌++◌,
  map, length, get_elem?, take, ltb, leb, ◌==◌, if◌then◌else◌,
}
use cwhost.Base.Int.{ℤ, pos, negsuc}
use cwhost.Base.Result.{Result, ok, err, or_raise, raise_if, ◌>>=◌, ◌>>◌}
use cwhost.Base.Bytes.{Bytes}
use cwhost.Base.Dict.{Dict, lookup, has_key, insert, erase}
use cwhost.Base.Text.{Tables}
use cwhost.Resources.{
  ResourceError, ResourceFork, foreign_node, no_current, unknown_file, bad_index, no_string,
  missing_list, value_error, index_error, TypeName, raw, parse, get, str_list,
}

pub record Chain (Node : Type 0) : Type 0 where
  pub files : Dict ResourceFork
  pub nodes : Dict Node
  pub order : List ℕ
  pub current : Option ℕ

-- the search for a free reference number: `fuel` of them are tried
abbrev pub free_refnum : ℕ → ℕ → Dict ResourceFork → ℕ
free_refnum zero refnum files = refnum
free_refnum (suc fuel) refnum files =
    let later = free_refnum fuel (refnum + 1) files in
    if has_key refnum files then later else refnum

-- list.index
abbrev pub index_of : ℕ → List ℕ → Option ℕ
index_of r [] = none
index_of r (x ∷ xs) =
    if x == r then some 0 else elim (index_of r xs) [ none ↦ none | some i ↦ some (suc i) ]

-- list.remove, `none` where it raises ValueError
abbrev pub remove : ℕ → List ℕ → Option (List ℕ)
remove r [] = none
remove r (x ∷ xs) =
    if x == r then some xs else elim (remove r xs) [ none ↦ none | some rest ↦ some (x ∷ rest) ]

-- `order[-1] if order else None`
abbrev pub last : List ℕ → Option ℕ
last [] = none
last (x ∷ []) = some x
last (x ∷ y ∷ rest) = last (y ∷ rest)

-- reversed
abbrev pub reverse : List ℕ → List ℕ
reverse [] = []
reverse (x ∷ xs) = reverse xs ++ x ∷ []

-- strings[index - 1], for an index that is at least 1
abbrev pub string_at : ℤ → List Bytes → Result ResourceError Bytes
string_at (pos index) strings =
    raise_if (ltb (length strings) index) (no_string (pos index))
    >> or_raise (get_elem? strings (index - 1)) index_error
string_at (negsuc n) strings = err (bad_index (negsuc n))

-- index < 1
abbrev pub below_one : ℤ → Bool
below_one (pos index) = ltb index 1
below_one (negsuc _) = true

module _ {Node : Type 0} where
  -- ResourceChain.__init__
  abbrev pub chain_new : Chain Node
  chain_new = record { files = []; nodes = []; order = []; current = none }

  -- ResourceChain._check
  abbrev pub check : ℕ → Chain Node → Result ResourceError ResourceFork
  check refnum c = or_raise (lookup refnum c.files) (unknown_file refnum)

  -- ResourceChain.use
  unfoldable pub use_file : ℕ → Chain Node → Result ResourceError (Chain Node)
  use_file refnum c = check refnum c >>= λ _. ok (record c { current = some refnum })

  -- ResourceChain.close
  unfoldable pub close : ℕ → Chain Node → Result ResourceError (Chain Node)
  close refnum c = do
    fork ← check refnum c
    order ← or_raise (remove refnum c.order) value_error
    ok (record {
      files = erase refnum c.files;
      nodes = erase refnum c.nodes;
      order = order;
      current = last order;
    })

  -- the files that `get` and `get_ind_string` look into, in their order
  abbrev pub searched : ℕ → Chain Node → Result ResourceError (List ℕ)
  searched refnum c =
      or_raise (index_of refnum c.order) value_error >>= λ i. ok (reverse (take (i + 1) c.order))

module _ {Node : Type 0} (own : Node → Bool)
    (resource_fork : Node → Result ResourceError Bytes) where
  -- ResourceChain.open
  unfoldable pub open_file : Node → Chain Node → Result ResourceError (ℕ × Chain Node)
  unfolding parse
  open_file node c = do
    raise_if (not (own node)) foreign_node
    let refnum = free_refnum (length c.files) 1 c.files
    bytes ← resource_fork node
    fork ← parse bytes
    ok (
      refnum,
      record {
        files = insert refnum fork c.files;
        nodes = insert refnum node c.nodes;
        order = c.order ++ refnum ∷ [];
        current = some refnum;
      },
    )

module _ {Node : Type 0} (t : Tables) where
  -- ResourceChain.get1
  unfoldable pub get1 : TypeName → ℤ → Chain Node → Result ResourceError (Option Bytes)
  get1 name resource_id c = elim c.current [
    | none ↦ ok none
    | some refnum ↦ check refnum c >>= get t name resource_id
  ]

  -- the loop of `get`
  abbrev pub first_payload :
      TypeName → ℤ → List ℕ → Chain Node → Result ResourceError (Option Bytes)
  first_payload name resource_id [] c = ok none
  first_payload name resource_id (refnum ∷ rest) c =
      (check refnum c >>= get t name resource_id) >>= λ payload. elim payload [
        | none ↦ first_payload name resource_id rest c
        | some found ↦ ok (some found)
      ]

  -- `get`, by the current file
  abbrev pub get_below : TypeName → ℤ → Option ℕ → Chain Node → Result ResourceError (Option Bytes)
  get_below name resource_id none c = ok none
  get_below name resource_id (some refnum) c =
      searched refnum c >>= λ files. first_payload name resource_id files c

  -- ResourceChain.get
  unfoldable pub get_from_chain : TypeName → ℤ → Chain Node → Result ResourceError (Option Bytes)
  get_from_chain name resource_id c = get_below name resource_id c.current c

  -- the loop of `get_ind_string`
  abbrev pub first_string : ℤ → ℤ → List ℕ → Chain Node → Result ResourceError Bytes
  first_string list_id index [] c = err (missing_list list_id)
  first_string list_id index (refnum ∷ rest) c =
      (check refnum c >>= get t (raw (b'S' ∷ b'T' ∷ b'R' ∷ b'#' ∷ [])) list_id) >>= λ payload.
      elim payload [
        | none ↦ first_string list_id index rest c
        | some found ↦ check refnum c >>= λ fork. str_list list_id fork >>= string_at index
      ]

  -- ResourceChain.get_ind_string
  unfoldable pub get_ind_string : ℤ → ℤ → Chain Node → Result ResourceError Bytes
  unfolding str_list
  get_ind_string list_id index c = raise_if (below_one index) (bad_index index) >> elim c.current [
    | none ↦ err no_current
    | some refnum ↦ searched refnum c >>= λ files. first_string list_id index files c
  ]
