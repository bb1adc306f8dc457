-- ===== src/Plugin/Serving.antt =====
-- pluginlib.py: what every callback keeps, and what one that is called for another context does.
use Prim.Native.String.{String}
use cwhost.Base.{
  ℕ, ◌≡◌, ◌%◌, ◌∙◌, Bool, true, false, Option, none, some, List, [], ◌∷◌, refl, ap, arith,
  if◌then◌else◌, ◌==◌,
}
use cwhost.Base.Result.{ok}
use cwhost.Base.Action.{◌>>=◌}
use cwhost.Base.Bytes.{Bytes}
use cwhost.Base.Dict.{lookup}
use cwhost.Guest.{Emulator}
use cwhost.Session.{unimplemented_import, Session, store_u32, store_u8}
use cwhost.Base.Map.{string_eq}
use cwhost.Plugin.{return}
use cwhost.Plugin.Keeps.{
  Keeps, keeps_rules, chain, chosen, return-Keeps, pure-Keeps, store_u32-Keeps, store_u8-Keeps,
  raise-Keeps,
}
use cwhost.Plugin.Steps.{
  enter-Keeps, cstr-Keeps, write_cstr-Keeps, alloc_cw_handle-Keeps, free_cw_handle-Keeps,
  cw_handle-Keeps, cw_handle_block-Keeps, secret_pointer-Keeps, if-Keeps,
}
use cwhost.Plugin.Callbacks.{
  token_for, give_token, get_plugin_request, get_api_version, get_project_file_count,
  get_target_name, get_main_file_number, get_main_file_id, bool_callback, get_named_preferences,
  free_mem_handle, lock_mem_handle, unlock_mem_handle, checkout_license, checkin_license,
  display_lines, user_break, release_file_text, secret_get_named_preferences, secret_attach_handle,
}
use cwhost.Plugin.Table.{
  Callback, callback, request_code, api_version, project_file_count, target_name, main_file_number,
  main_file_id, flag, named_preferences, free_memory, lock_memory, unlock_memory, checkout, checkin,
  lines, break, release_text, secret_preferences, secret_attach, stub,
}

module _ (u : Emulator) (decode : Bytes → String) where
  stores-Keeps : (address : ℕ) (g : Session u → ℕ) → Keeps u (λ s. store_u32 u address (g s) s)
  stores-Keeps address g =
      chosen u (λ n. store_u32 u address n) g (λ n. store_u32-Keeps u address n)

  stores_u8-Keeps : (address : ℕ) (g : Session u → ℕ) → Keeps u (λ s. store_u8 u address (g s) s)
  stores_u8-Keeps address g =
      chosen u (λ n. store_u8 u address n) g (λ n. store_u8-Keeps u address n)

  returns-Keeps : (g : Session u → ℕ) → Keeps u (λ s. return u (g s) s)
  returns-Keeps g = chosen u (return u) g (return-Keeps u)

  token-Keeps : (o : Option ℕ) (cookie_out : ℕ) → Keeps u (token_for u decode o cookie_out)
  token-Keeps (some token) cookie_out = pure-Keeps u token
  token-Keeps none cookie_out = search (keeps_rules, recorded) depth 8
    where
      recorded :
          (token : ℕ)
          → Keeps u (λ s. (
            ok token,
            record s { license_tokens = cwhost.Base.Dict.insert cookie_out token s.license_tokens },
          ))
      recorded token = record {
        at = λ s. record {
          progress = refl;
          phase = refl;
          fragment = refl;
          ctx_ptr = refl;
          closed = refl;
        };
      }

  give_token-Keeps : (cookie_out : ℕ) → Keeps u (give_token u decode cookie_out)
  give_token-Keeps cookie_out =
      chosen u (λ o. token_for u decode o cookie_out >>= store_u32 u cookie_out)
        (λ s. lookup cookie_out s.license_tokens)
        (λ o. chain u (token-Keeps o cookie_out) (store_u32-Keeps u cookie_out))

  ruleset callback_rules = (
    keeps_rules, enter-Keeps, stores-Keeps, stores_u8-Keeps, returns-Keeps, cstr-Keeps,
    write_cstr-Keeps, alloc_cw_handle-Keeps, free_cw_handle-Keeps, cw_handle-Keeps,
    cw_handle_block-Keeps, secret_pointer-Keeps, if-Keeps, give_token-Keeps,
  )

  pub callback-Keeps : (c : Callback) → Keeps u (callback u decode c)
  unfolding callback get_plugin_request get_api_version get_project_file_count get_target_name
      get_main_file_number get_main_file_id bool_callback get_named_preferences free_mem_handle
      lock_mem_handle unlock_mem_handle checkout_license checkin_license display_lines user_break
      release_file_text secret_get_named_preferences secret_attach_handle
  callback-Keeps request_code = search callback_rules depth 8
  callback-Keeps api_version = search callback_rules depth 8
  callback-Keeps project_file_count = search callback_rules depth 8
  callback-Keeps target_name = search callback_rules depth 8
  callback-Keeps main_file_number = search callback_rules depth 8
  callback-Keeps main_file_id = search callback_rules depth 8
  callback-Keeps (flag f) = search callback_rules depth 8
  callback-Keeps named_preferences = search callback_rules depth 8
  callback-Keeps free_memory = search callback_rules depth 8
  callback-Keeps lock_memory = search callback_rules depth 8
  callback-Keeps unlock_memory = search callback_rules depth 8
  callback-Keeps checkout = search callback_rules depth 8
  callback-Keeps checkin = search callback_rules depth 8
  callback-Keeps lines = search callback_rules depth 8
  callback-Keeps break = search callback_rules depth 8
  callback-Keeps release_text = search callback_rules depth 8
  callback-Keeps secret_preferences = search callback_rules depth 8
  callback-Keeps secret_attach = search callback_rules depth 8
  callback-Keeps (stub name) = raise-Keeps u (unimplemented_import name)
