-- ===== src/Session.antt =====
-- session.py, class Session: the state of a session with a plug-in, and the memory handles that the
-- plug-in gets. The state of the guest that matters is its heap, its memory and its registers.
pub mod Requests
pub mod Scoped
pub mod Words
pub mod Stored
pub mod Includes
use Prim.Native.String.{String}
use cwhost.Base.{
  ℕ, zero, suc, ◌+◌, ◌%◌, max, Bool, true, false, not, ◌&&◌, ◌||◌, Option, none, some, List, [],
  ◌∷◌, ◌++◌, length, ◌==◌, if◌then◌else◌,
}
use cwhost.Base.Int.{ℤ, pos, negsuc}
use cwhost.Base.Result.{Result, ok, err, or_raise}
use cwhost.Base.Action.{Action, pure, raise, lift, gets, modify, raise_if, ◌>>=◌, ◌>>◌}
use cwhost.Base.Bytes.{Bytes}
use cwhost.Base.Dict.{Dict, lookup, insert, erase}
use cwhost.Base.Map.{Map, string_eq}
use cwhost.Base.Map as Map
use cwhost.Guest.{Emulator}
use cwhost.Guest.Memory.{read, write, u32, w8, w16, w32}
use cwhost.Guest.Arguments.{ArgError}
use cwhost.Guest.Scratch.{ScratchError}
use cwhost.Guest.Scratch as Scratch
use cwhost.Memory.{MemoryError}
use cwhost.Memory.Heap.{Heap}
use cwhost.Memory.Heap as Heap
use cwhost.Memory.Handles.{Handle, Manager}
use cwhost.Memory.Handles as Handles
use cwhost.Memory.Realloc.{Machine}
use cwhost.Memory.Realloc as Realloc

-- One constructor for each exception of session.py and pluginlib.py, and those of the parts below.
pub data SessionError : Type 0 where
  bad_context done_twice invalid_handle modified_handle unknown_secret : SessionError
  not_loaded after_termination not_done termination_failed guest_fault : SessionError
  outside_request unterminated unknown_preferences not_mac_roman : SessionError
  unimplemented_import : String → SessionError
  memory : MemoryError → SessionError
  arguments : ArgError → SessionError
  scratch : ScratchError → SessionError

-- _CWMemHandle
pub record CwMemHandle : Type 0 where
  pub handle : ℕ
  pub block : ℕ
  pub size : ℕ
  pub request_scoped : Bool

-- The entry points of a loaded plug-in, as the properties of loader.Fragment give them. A plug-in
-- without a main routine, for which the property raises, is left out.
pub record Fragment : Type 0 where
  pub main_tvector : ℕ
  pub term_tvector : Option ℕ

-- self._state
pub data Phase : Type 0 where
  fresh loaded initialized terminated : Phase

-- what is known of a request while it runs: self._current, self._done and self._done_count
pub record Progress : Type 0 where
  pub current : Option ℤ
  pub done : Option ℤ
  pub done_count : ℕ

-- SessionFlags
pub record SessionFlags : Type 0 where
  pub preprocess : Bool
  pub debug : Bool
  pub precompile : Bool
  pub auto_precompile : Bool
  pub cache_precompiled_headers : Bool

-- What the constructor takes from its caller and nothing changes. The target's name is encoded, `none`
-- where MacRoman has no code for it.
pub record Setup : Type 0 where
  pub panels : Map String Bytes
  pub api_version : ℕ
  pub flags : SessionFlags
  pub file_count : ℕ
  pub target_name : Option Bytes

-- class Session
pub record Session (u : Emulator) : Type 0 where
  pub manager : Manager u
  pub gprs : ℕ → ℕ
  pub scratch_next : ℕ
  pub setup : Setup
  pub interrupted : Bool
  pub fragment : Option Fragment
  pub ctx_ptr : Option ℕ
  pub progress : Progress
  pub phase : Phase
  pub closed : Bool
  pub cw_handles : Dict CwMemHandle
  pub text_buffers : Dict Bytes
  pub secret_words : Map String ℕ
  pub license_tokens : Dict ℕ
  pub file_ids : Dict ℕ

module _ (u : Emulator) where
  abbrev pub Call : Type 0 → Type 0
  Call A = Action (Session u) SessionError A

  abbrev pub reraise : {A : Type 0} → Result MemoryError A → Result SessionError A
  reraise (ok a) = ok a
  reraise (err e) = err (memory e)

  abbrev pub with_manager :
      {A : Type 0}
      → Session u
      → Result MemoryError A × Manager u
      → Result SessionError A × Session u
  with_manager s (r, m) = (reraise r, record s { manager = m })

  -- a call of the Memory Manager, or of the heap below it
  abbrev pub on_manager : {A : Type 0} → Action (Manager u) MemoryError A → Call A
  on_manager f s = with_manager s (f s.manager)

  abbrev pub on_heap : {A : Type 0} → Action Heap MemoryError A → Call A
  on_heap f = on_manager (Handles.on_machine u (Realloc.on_heap u f))

  -- a read of guest memory
  abbrev pub load : {A : Type 0} → (u.State → Option A) → Call A
  load f s = (or_raise (f s.manager.machine.memory) guest_fault, s)

  abbrev pub set_memory : u.State → Session u → Session u
  set_memory m s = record s {
    manager = record s.manager { machine = record s.manager.machine { memory = m } };
  }

  abbrev pub written : Option u.State → Call (Unit {0})
  written none s = (err guest_fault, s)
  written (some m) s = (ok tt, set_memory m s)

  -- guest.write, guest.w8, guest.w16 and guest.w32
  abbrev pub store : ℕ → Bytes → Call (Unit {0})
  store address bytes s = written (write u s.manager.machine.memory address bytes) s

  abbrev pub store_u8 : ℕ → ℕ → Call (Unit {0})
  store_u8 address value s = written (w8 u s.manager.machine.memory address value) s

  abbrev pub store_u16 : ℕ → ℕ → Call (Unit {0})
  store_u16 address value s = written (w16 u s.manager.machine.memory address value) s

  abbrev pub store_u32 : ℕ → ℕ → Call (Unit {0})
  store_u32 address value s = written (w32 u s.manager.machine.memory address value) s

  abbrev pub allocated : Session u → Result ScratchError ℕ × ℕ → Result SessionError ℕ × Session u
  allocated s (ok address, next) = (ok address, record s { scratch_next = next })
  allocated s (err e, next) = (err (scratch e), record s { scratch_next = next })

  -- guest.alloc(size, align)
  abbrev pub guest_alloc : ℕ → ℕ → Call ℕ
  guest_alloc size align s = allocated s (Scratch.alloc (pos size) (pos align) s.scratch_next)

  abbrev pub store_data : Bytes → ℕ → Call (Unit {0})
  store_data [] address = pure tt
  store_data (b ∷ bytes) address = store address (b ∷ bytes)

  abbrev pub set_handle : CwMemHandle → Call (Unit {0})
  set_handle item s = (ok tt, record s { cw_handles = insert item.handle item s.cw_handles })

  -- Session._alloc_cw_handle
  unfoldable pub alloc_cw_handle : Bytes → Bool → Call ℕ
  alloc_cw_handle bytes request_scoped = do
    handle ← on_heap (Heap.alloc (pos 8) (pos 4))
    block ← on_heap (Heap.alloc (pos (length bytes)) (pos 4))
    store_data bytes block
    store_u32 handle block
    store_u32 (handle + 4) (length bytes)
    set_handle (record {
      handle = handle;
      block = block;
      size = length bytes;
      request_scoped = request_scoped;
    })
    pure handle

  abbrev pub unmodified : ℕ → CwMemHandle → Call CwMemHandle
  unmodified handle item = do
    block ← load (λ m. u32 u m handle)
    if block == item.block
        then (load (λ m. u32 u m (handle + 4)) >>= λ size.
            if size == item.size then pure item else raise modified_handle)
        else raise modified_handle

  abbrev pub known_handle : Option CwMemHandle → Call CwMemHandle
  known_handle none = raise invalid_handle
  known_handle (some item) = pure item

  -- Session._cw_handle
  unfoldable pub cw_handle : ℕ → Call CwMemHandle
  cw_handle handle s = (known_handle (lookup handle s.cw_handles) >>= unmodified handle) s

  -- Session._cw_handle_block, _cw_handle_size and _cw_handle_bytes
  unfoldable pub cw_handle_block : ℕ → Call ℕ
  unfolding cw_handle
  cw_handle_block handle = cw_handle handle >>= λ item. pure item.block

  unfoldable pub cw_handle_size : ℕ → Call ℕ
  unfolding cw_handle
  cw_handle_size handle = cw_handle handle >>= λ item. pure item.size

  unfoldable pub cw_handle_bytes : ℕ → Call Bytes
  unfolding cw_handle
  cw_handle_bytes handle = cw_handle handle >>= λ item. load (λ m. read u m item.block item.size)

  abbrev pub pop_handle : ℕ → Call CwMemHandle
  pop_handle handle s = (
    or_raise (lookup handle s.cw_handles) invalid_handle,
    record s { cw_handles = erase handle s.cw_handles },
  )

  -- Session._free_cw_handle
  unfoldable pub free_cw_handle : ℕ → Call (Unit {0})
  free_cw_handle handle = do
    item ← pop_handle handle
    on_heap (Heap.free item.block)
    on_heap (Heap.free item.handle)

  -- the loop of _free_request_handles, over a copy of the table
  unfoldable pub free_scoped : Dict CwMemHandle → Call (Unit {0})
  unfolding free_cw_handle
  free_scoped [] = pure tt
  free_scoped ((address, item) ∷ items) =
      if item.request_scoped
      then (free_cw_handle address >> free_scoped items)
      else free_scoped items

  -- Session._free_request_handles
  unfoldable pub free_request_handles : Call (Unit {0})
  unfolding free_scoped
  free_request_handles s = free_scoped s.cw_handles s

  abbrev pub add_text : ℕ → Bytes → Call (Unit {0})
  add_text pointer bytes s =
      (ok tt, record s { text_buffers = insert pointer bytes s.text_buffers })

  -- Session._text_pointer
  unfoldable pub text_pointer : Bytes → Call ℕ
  text_pointer bytes = do
    pointer ← guest_alloc (length bytes + 1) 4
    store_data bytes pointer
    store_u8 (pointer + length bytes) 0
    add_text pointer bytes
    pure pointer

  abbrev pub add_secret : String → ℕ → Call (Unit {0})
  add_secret name word s = (ok tt, record s { secret_words = Map.insert name word s.secret_words })

  abbrev pub new_secret : String → Bytes → Call ℕ
  new_secret name panel = do
    block ← guest_alloc (max 1 (length panel)) 4
    store_data panel block
    word ← guest_alloc 4 4
    store_u32 word block
    add_secret name word
    pure word

  abbrev pub secret_for : Option ℕ → String → Call ℕ
  secret_for (some word) name s = (ok word, s)
  secret_for none name s =
      (lift (or_raise (Map.lookup name s.setup.panels) unknown_secret) >>= new_secret name) s

  -- Session._secret_pointer. The table _secret_buffers has the same keys as _secret_words, and nothing
  -- else reads it: it is left out.
  unfoldable pub secret_pointer : String → Call ℕ
  secret_pointer name s = secret_for (Map.lookup name s.secret_words) name s

  abbrev pub id_for : Option ℕ → ℕ → Session u → ℕ × Session u
  id_for (some id) node s = (id, s)
  id_for none node s =
      (length s.file_ids, record s { file_ids = insert node (length s.file_ids) s.file_ids })

  -- Session._file_id, of the node with a number
  unfoldable pub file_id : ℕ → Session u → ℕ × Session u
  file_id node s = id_for (lookup node s.file_ids) node s

  -- Session._check_context
  abbrev pub is_context : Option ℕ → ℕ → Bool
  is_context none context = false
  is_context (some ctx) context = context == ctx

  abbrev pub check_context : ℕ → Call (Unit {0})
  check_context context s = raise_if (not (is_context s.ctx_ptr context)) bad_context s
