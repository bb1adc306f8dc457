-- ===== src/Plugin/Callbacks.antt =====
-- pluginlib.py: the callbacks, one definition for each shim.
use Prim.Native.String.{String}
use cwhost.Base.{ℕ, ◌-◌, ◌%◌, Bool, true, Option, none, some, [], ◌∷◌, ◌==◌, if◌then◌else◌}
use cwhost.Base.Int.{ℤ, pos, negsuc}
use cwhost.Base.Result.{ok, or_raise}
use cwhost.Base.Action.{pure, ◌>>=◌, ◌>>◌}
use cwhost.Base.Bytes.{Bytes}
use cwhost.Base.Dict.{lookup, insert, erase}
use cwhost.Base.Map.{string_eq}
use cwhost.Base.Map as Map
use cwhost.Guest.{Emulator}
use cwhost.Guest.Arguments.{ptr, long, short, octet}
use cwhost.Memory.Handles as Handles
use cwhost.Session.{
  outside_request, unknown_preferences, not_mac_roman, SessionFlags, Call, on_manager, store_u8,
  store_u16, store_u32, guest_alloc, alloc_cw_handle, cw_handle, cw_handle_block, free_cw_handle,
  secret_pointer,
}
use cwhost.Session.Requests.{done_request}
use cwhost.Plugin.{int_at, pointer_at, signed32, bit, return, cstr, write_cstr, enter}

-- value & 0xFFFF_FFFF
abbrev pub wrap32 : ℤ → ℕ
wrap32 (pos n) = n % 0x1_0000_0000
wrap32 (negsuc n) = 0xFFFF_FFFF - n % 0x1_0000_0000

-- the callbacks of _bool_callback, with the flag that each reads
pub data Flag : Type 0 where
  is_precompiling is_auto_precompiling is_preprocessing is_generating_debug_info
        is_caching_precompiled_headers :
      Flag

abbrev pub flag_of : Flag → SessionFlags → Bool
flag_of is_precompiling flags = flags.precompile
flag_of is_auto_precompiling flags = flags.auto_precompile
flag_of is_preprocessing flags = flags.preprocess
flag_of is_generating_debug_info flags = flags.debug
flag_of is_caching_precompiled_headers flags = flags.cache_precompiled_headers

-- `decode` is bytes.decode("mac_roman")
module _ (u : Emulator) (decode : Bytes → String) where
  unfoldable pub get_plugin_request : Call u ℕ
  unfolding enter
  get_plugin_request = do
    values ← enter u (ptr ∷ ptr ∷ [])
    current ← λ s. (or_raise s.progress.current outside_request, s)
    store_u32 u (pointer_at 1 values) (wrap32 current)
    return u 0

  unfoldable pub done_plugin_request : Call u ℕ
  unfolding enter done_request
  done_plugin_request = do
    values ← enter u (ptr ∷ long ∷ [])
    done_request u (signed32 (pointer_at 1 values))
    return u 0

  unfoldable pub get_api_version : Call u ℕ
  unfolding enter
  get_api_version = do
    values ← enter u (ptr ∷ ptr ∷ [])
    λ s. store_u32 u (pointer_at 1 values) s.setup.api_version s
    return u 0

  unfoldable pub get_project_file_count : Call u ℕ
  unfolding enter
  get_project_file_count = do
    values ← enter u (ptr ∷ ptr ∷ [])
    λ s. store_u32 u (pointer_at 1 values) s.setup.file_count s
    return u 0

  unfoldable pub get_target_name : Call u ℕ
  unfolding enter write_cstr
  get_target_name = do
    values ← enter u (ptr ∷ ptr ∷ short ∷ [])
    name ← λ s. (or_raise s.setup.target_name not_mac_roman, s)
    write_cstr u (pointer_at 1 values) (int_at 2 values) name
    return u 0

  unfoldable pub get_main_file_number : Call u ℕ
  unfolding enter
  get_main_file_number = do
    values ← enter u (ptr ∷ ptr ∷ [])
    store_u32 u (pointer_at 1 values) 0
    return u 0

  unfoldable pub get_main_file_id : Call u ℕ
  unfolding enter
  get_main_file_id = do
    values ← enter u (ptr ∷ ptr ∷ [])
    store_u16 u (pointer_at 1 values) 0
    return u 0

  -- _bool_callback
  unfoldable pub bool_callback : Flag → Call u ℕ
  unfolding enter
  bool_callback flag = do
    values ← enter u (ptr ∷ ptr ∷ [])
    λ s. store_u8 u (pointer_at 1 values) (bit (flag_of flag s.setup.flags)) s
    return u 0

  unfoldable pub get_named_preferences : Call u ℕ
  unfolding enter cstr alloc_cw_handle
  get_named_preferences = do
    values ← enter u (ptr ∷ ptr ∷ ptr ∷ [])
    name ← cstr u (pointer_at 1 values)
    panel ← λ s. (or_raise (Map.lookup (decode name) s.setup.panels) unknown_preferences, s)
    handle ← alloc_cw_handle u panel true
    store_u32 u (pointer_at 2 values) handle
    return u 0

  unfoldable pub free_mem_handle : Call u ℕ
  unfolding enter free_cw_handle
  free_mem_handle = do
    values ← enter u (ptr ∷ ptr ∷ [])
    free_cw_handle u (pointer_at 1 values)
    return u 0

  unfoldable pub lock_mem_handle : Call u ℕ
  unfolding enter cw_handle_block
  lock_mem_handle = do
    values ← enter u (ptr ∷ ptr ∷ octet ∷ ptr ∷ [])
    block ← cw_handle_block u (pointer_at 1 values)
    store_u32 u (pointer_at 3 values) block
    return u 0

  unfoldable pub unlock_mem_handle : Call u ℕ
  unfolding enter cw_handle
  unlock_mem_handle = do
    values ← enter u (ptr ∷ ptr ∷ [])
    cw_handle u (pointer_at 1 values)
    return u 0

  abbrev pub new_token : ℕ → Call u ℕ
  new_token cookie_out = do
    token ← guest_alloc u 4 4
    store_u32 u token 0x4C49_4345
    λ s. (ok token, record s { license_tokens = insert cookie_out token s.license_tokens })

  abbrev pub token_for : Option ℕ → ℕ → Call u ℕ
  token_for none cookie_out = new_token cookie_out
  token_for (some token) cookie_out = pure token

  abbrev pub give_token : ℕ → Call u (Unit {0})
  give_token cookie_out s =
      (token_for (lookup cookie_out s.license_tokens) cookie_out >>= store_u32 u cookie_out) s

  unfoldable pub checkout_license : Call u ℕ
  unfolding enter
  checkout_license = do
    values ← enter u (ptr ∷ ptr ∷ ptr ∷ long ∷ long ∷ ptr ∷ [])
    if pointer_at 5 values == 0 then pure tt else give_token (pointer_at 5 values)
    return u 0

  unfoldable pub checkin_license : Call u ℕ
  unfolding enter
  checkin_license = enter u (ptr ∷ ptr ∷ []) >> return u 0

  unfoldable pub display_lines : Call u ℕ
  unfolding enter
  display_lines = enter u (ptr ∷ long ∷ []) >> return u 0

  unfoldable pub user_break : Call u ℕ
  unfolding enter
  user_break = enter u (ptr ∷ []) >> λ s. return u (bit s.interrupted) s

  unfoldable pub release_file_text : Call u ℕ
  unfolding enter
  release_file_text = do
    values ← enter u (ptr ∷ ptr ∷ [])
    λ s. (ok tt, record s { text_buffers = erase (pointer_at 1 values) s.text_buffers })
    return u 0

  unfoldable pub secret_get_named_preferences : Call u ℕ
  unfolding enter cstr secret_pointer
  secret_get_named_preferences = do
    values ← enter u (ptr ∷ ptr ∷ ptr ∷ [])
    name ← cstr u (pointer_at 1 values)
    pointer ← secret_pointer u (decode name)
    store_u32 u (pointer_at 2 values) pointer
    return u 0

  abbrev pub store_unless_null : ℕ → ℕ → Call u (Unit {0})
  store_unless_null output value = if output == 0 then pure tt else store_u32 u output value

  abbrev pub attach : ℕ → ℕ → Call u (Unit {0})
  attach value output =
      if value == 0
      then store_unless_null output 0
      else (on_manager u (Handles.block u value) >>= store_unless_null output)

  unfoldable pub secret_attach_handle : Call u ℕ
  unfolding enter
  secret_attach_handle = do
    values ← enter u (ptr ∷ ptr ∷ ptr ∷ [])
    attach (pointer_at 1 values) (pointer_at 2 values)
    return u 0
