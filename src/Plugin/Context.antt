-- ===== src/Plugin/Context.antt =====
-- pluginlib.py, _ctx: a callback that is called for another context than the session's.
use Prim.Native.String.{String}
use cwhost.Base.{ℕ, ◌≡◌, ◌%◌, false, List, [], ◌∷◌, refl}
use cwhost.Base.Int.{pos}
use cwhost.Base.Result.{Result, ok, err, >>=-eq-ok, raise_if}
use cwhost.Base.Bytes.{Bytes}
use cwhost.Guest.{Emulator}
use cwhost.Guest.Arguments.{
  ArgType, ptr, long, short, octet, Value, int, ArgError, unsupported, any_other, args, args_from,
}
use cwhost.Session.{SessionError, bad_context, arguments, Session, is_context}
use cwhost.Plugin.{pointer_at, take_args, enter}
use cwhost.Plugin.Callbacks.{
  get_plugin_request, done_plugin_request, get_api_version, get_project_file_count, get_target_name,
  get_main_file_number, get_main_file_id, bool_callback, get_named_preferences, free_mem_handle,
  lock_mem_handle, unlock_mem_handle, checkout_license, checkin_license, display_lines, user_break,
  release_file_text, secret_get_named_preferences, secret_attach_handle,
}
use cwhost.Plugin.Table.{
  Callback, is_stub, callback, request_code, api_version, project_file_count, target_name,
  main_file_number, main_file_id, flag, named_preferences, free_memory, lock_memory, unlock_memory,
  checkout, checkin, lines, break, release_text, secret_preferences, secret_attach, stub,
}

module _ (u : Emulator) where
  -- an argument list that starts with a pointer has the third register there
  args_first :
      (m : u.State) (reg : ℕ → ℕ) (freg : ℕ → Unit {0}) (spec : List ArgType)
      {values : List (Value (Unit {0}))}
      → args u m reg freg (ptr ∷ spec) ≡ ok values
      → pointer_at 0 values ≡ reg 3 % 0x1_0000_0000
  unfolding args
  args_first m reg freg spec {values = values} q =
      let (_, checked, ends) =
        >>=-eq-ok (raise_if (any_other (ptr ∷ spec)) unsupported)
          (λ _. args_from u m reg freg (ptr ∷ spec) 0 0) q in
      let (rest, read, whole) =
        >>=-eq-ok (args_from u m reg freg spec 1 0)
          (λ rest. ok (int (pos (reg 3 % 0x1_0000_0000)) ∷ rest)) (unfold args_from in ends) in
      let e : int (pos (reg 3 % 0x1_0000_0000)) ∷ rest ≡ values = cc in rw (← e) refl

  abbrev pub Refused : {A : Type 0} → Session u → Result SessionError A × Session u → Type 0
  Refused {A} s out = (e : SessionError) × (out ≡ (err e, s))

  enter_with :
      (r : Result ArgError (List (Value (Unit {0})))) (spec : List ArgType) (s : Session u)
      → args u s.manager.machine.memory s.gprs (λ _. tt) (ptr ∷ spec) ≡ r
      → is_context u s.ctx_ptr (s.gprs 3 % 0x1_0000_0000) ≡ false
      → Refused s (enter u (ptr ∷ spec) s)
  unfolding enter
  enter_with (err e) spec s q wrong = (arguments e, unfold take_args in rw q refl)
  enter_with (ok values) spec s q wrong =
      let first = args_first s.manager.machine.memory s.gprs (λ _. tt) spec q in
      (bad_context, unfold take_args in rw q (rw (first, wrong) refl))

  enter_refuses :
      (spec : List ArgType) (s : Session u)
      → is_context u s.ctx_ptr (s.gprs 3 % 0x1_0000_0000) ≡ false
      → Refused s (enter u (ptr ∷ spec) s)
  enter_refuses spec s wrong =
      enter_with (args u s.manager.machine.memory s.gprs (λ _. tt) (ptr ∷ spec)) spec s refl wrong

module _ (u : Emulator) (decode : Bytes → String) where
  done_Refused :
      (s : Session u)
      → is_context u s.ctx_ptr (s.gprs 3 % 0x1_0000_0000) ≡ false
      → Refused u s (done_plugin_request u decode s)
  unfolding done_plugin_request
  done_Refused s wrong = let (e, q) = enter_refuses u (long ∷ []) s wrong in (e, rw q refl)

  one_Refused :
      (c : Callback) (s : Session u)
      → is_stub c ≡ false
      → is_context u s.ctx_ptr (s.gprs 3 % 0x1_0000_0000) ≡ false
      → Refused u s (callback u decode c s)
  unfolding callback get_plugin_request get_api_version get_project_file_count get_target_name
      get_main_file_number get_main_file_id bool_callback get_named_preferences free_mem_handle
      lock_mem_handle unlock_mem_handle checkout_license checkin_license display_lines user_break
      release_file_text secret_get_named_preferences secret_attach_handle
  one_Refused request_code s real wrong =
      let (e, q) = enter_refuses u (ptr ∷ []) s wrong in (e, rw q refl)
  one_Refused api_version s real wrong =
      let (e, q) = enter_refuses u (ptr ∷ []) s wrong in (e, rw q refl)
  one_Refused project_file_count s real wrong =
      let (e, q) = enter_refuses u (ptr ∷ []) s wrong in (e, rw q refl)
  one_Refused target_name s real wrong =
      let (e, q) = enter_refuses u (ptr ∷ short ∷ []) s wrong in (e, rw q refl)
  one_Refused main_file_number s real wrong =
      let (e, q) = enter_refuses u (ptr ∷ []) s wrong in (e, rw q refl)
  one_Refused main_file_id s real wrong =
      let (e, q) = enter_refuses u (ptr ∷ []) s wrong in (e, rw q refl)
  one_Refused (flag f) s real wrong =
      let (e, q) = enter_refuses u (ptr ∷ []) s wrong in (e, rw q refl)
  one_Refused named_preferences s real wrong =
      let (e, q) = enter_refuses u (ptr ∷ ptr ∷ []) s wrong in (e, rw q refl)
  one_Refused free_memory s real wrong =
      let (e, q) = enter_refuses u (ptr ∷ []) s wrong in (e, rw q refl)
  one_Refused lock_memory s real wrong =
      let (e, q) = enter_refuses u (ptr ∷ octet ∷ ptr ∷ []) s wrong in (e, rw q refl)
  one_Refused unlock_memory s real wrong =
      let (e, q) = enter_refuses u (ptr ∷ []) s wrong in (e, rw q refl)
  one_Refused checkout s real wrong =
      let (e, q) = enter_refuses u (ptr ∷ ptr ∷ long ∷ long ∷ ptr ∷ []) s wrong in (e, rw q refl)
  one_Refused checkin s real wrong =
      let (e, q) = enter_refuses u (ptr ∷ []) s wrong in (e, rw q refl)
  one_Refused lines s real wrong =
      let (e, q) = enter_refuses u (long ∷ []) s wrong in (e, rw q refl)
  one_Refused break s real wrong = let (e, q) = enter_refuses u ([]) s wrong in (e, rw q refl)
  one_Refused release_text s real wrong =
      let (e, q) = enter_refuses u (ptr ∷ []) s wrong in (e, rw q refl)
  one_Refused secret_preferences s real wrong =
      let (e, q) = enter_refuses u (ptr ∷ ptr ∷ []) s wrong in (e, rw q refl)
  one_Refused secret_attach s real wrong =
      let (e, q) = enter_refuses u (ptr ∷ ptr ∷ []) s wrong in (e, rw q refl)
  one_Refused (stub name) s real wrong = absurd cc

  -- Where the first argument is not the session's context, or where the session has none yet, each of
  -- the 23 callbacks that the model has, CWDonePluginRequest included and the stubs left out, raises and
  -- changes nothing. Nine entries of TABLE are not among them: CWGetProjectFile,
  -- CWGetMainFileSpec, CWGetMainFileText, CWGetTargetInfo, CWGetBrowseOptions, CWFindAndLoadFile,
  -- CWReportMessage, CWCreateNewTextDocument and CWStoreObjectData.
  pub callback-Refused :
      (s : Session u)
      → is_context u s.ctx_ptr (s.gprs 3 % 0x1_0000_0000) ≡ false
      → ((c : Callback) → is_stub c ≡ false → Refused u s (callback u decode c s))
        × Refused u s (done_plugin_request u decode s)
  callback-Refused s wrong = ((λ c real. one_Refused c s real wrong), done_Refused s wrong)
