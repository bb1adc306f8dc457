-- ===== src/Plugin/Table.antt =====
-- pluginlib.py, TABLE: the callback behind each imported name, and what the plug-in's code may do to a
-- session while it runs.
use Prim.Native.String.{String}
use cwhost.Base.{ℕ, ◌≡◌, ◌%◌, Bool, true, false, List, [], ◌∷◌}
use cwhost.Base.Int.{ℤ}
use cwhost.Base.Result.{ok, err}
use cwhost.Base.Action.{raise}
use cwhost.Base.Bytes.{Bytes}
use cwhost.Guest.{Emulator}
use cwhost.Session.{SessionError, unimplemented_import, Session, Call}
use cwhost.Plugin.{signed32}
use cwhost.Plugin.Keeps.{Same}
use cwhost.Plugin.Callbacks.{
  Flag, get_plugin_request, done_plugin_request, get_api_version, get_project_file_count,
  get_target_name, get_main_file_number, get_main_file_id, bool_callback, get_named_preferences,
  free_mem_handle, lock_mem_handle, unlock_mem_handle, checkout_license, checkin_license,
  display_lines, user_break, release_file_text, secret_get_named_preferences, secret_attach_handle,
}

-- The names of TABLE that are modelled; `stub` is one of STUBS. CWDonePluginRequest stands alone below.
-- Left out are the nine that pack or unpack structures or ask the file system: CWGetProjectFile,
-- CWGetMainFileSpec, CWGetMainFileText, CWGetTargetInfo, CWGetBrowseOptions, CWFindAndLoadFile,
-- CWReportMessage, CWCreateNewTextDocument and CWStoreObjectData.
pub data Callback : Type 0 where
  request_code api_version project_file_count target_name main_file_number main_file_id : Callback
  flag : Flag → Callback
  named_preferences free_memory lock_memory unlock_memory checkout checkin lines break : Callback
  release_text secret_preferences secret_attach : Callback
  stub : String → Callback

abbrev pub is_stub : Callback → Bool
is_stub (stub _) = true
is_stub _ = false

module _ (u : Emulator) (decode : Bytes → String) where
  unfoldable pub callback : Callback → Call u ℕ
  callback request_code = get_plugin_request u decode
  callback api_version = get_api_version u decode
  callback project_file_count = get_project_file_count u decode
  callback target_name = get_target_name u decode
  callback main_file_number = get_main_file_number u decode
  callback main_file_id = get_main_file_id u decode
  callback (flag f) = bool_callback u decode f
  callback named_preferences = get_named_preferences u decode
  callback free_memory = free_mem_handle u decode
  callback lock_memory = lock_mem_handle u decode
  callback unlock_memory = unlock_mem_handle u decode
  callback checkout = checkout_license u decode
  callback checkin = checkin_license u decode
  callback lines = display_lines u decode
  callback break = user_break u decode
  callback release_text = release_file_text u decode
  callback secret_preferences = secret_get_named_preferences u decode
  callback secret_attach = secret_attach_handle u decode
  callback (stub name) = raise (unimplemented_import name)

  -- What happens to a session while the plug-in's code runs. `computes` is anything that leaves the
  -- request's state alone: what the code itself does to memory and registers, the services of Carbon,
  -- and the nine callbacks that Callback leaves out, which set none of _current, _done, _done_count,
  -- _state, fragment, ctx_ptr and _closed. The list has the results of the calls of
  -- CWDonePluginRequest that succeeded, the last one first.
  pub data Calls : List ℤ → Session u → Session u → Type 0 where
    idle : {s : Session u} → Calls [] s s
    computes :
        {results : List ℤ} {s out later : Session u}
        → Same u out later
        → Calls results s out
        → Calls results s later
    serves :
        {results : List ℤ} {s out : Session u} (c : Callback)
        → Calls results s out
        → Calls results s (callback c out).1
    finishes :
        {results : List ℤ} {s out : Session u} {value : ℕ}
        → (done_plugin_request u decode out).0 ≡ ok value
        → Calls results s out
        → Calls
            (signed32 (out.gprs 4 % 0x1_0000_0000) ∷ results)
            s
            (done_plugin_request u decode out).1
    refuses :
        {results : List ℤ} {s out : Session u} {e : SessionError}
        → (done_plugin_request u decode out).0 ≡ err e
        → Calls results s out
        → Calls results s (done_plugin_request u decode out).1
