-- ===== src/Plugin/Steps.antt =====
-- The steps that the callbacks are made of leave the state of the request as it is.
use Prim.Native.String.{String}
use cwhost.Base.{
  ℕ, zero, suc, not, ◌++◌, ◌+◌, ◌==◌, Bool, true, false, Option, none, some, List, [], ◌∷◌, refl,
  if◌then◌else◌,
}
use cwhost.Base.Int.{ℤ}
use cwhost.Base.Result.{Result, err, or_raise}
use cwhost.Base.Action.{pure, ◌>>=◌}
use cwhost.Base.Bytes.{Bytes}
use cwhost.Base.Dict.{lookup}
use cwhost.Base.Map.{string_eq}
use cwhost.Base.Map as Map
use cwhost.Guest.{Emulator}
use cwhost.Guest.Memory.{read}
use cwhost.Guest.Arguments.{ArgType}
use cwhost.Session.{
  bad_context, guest_fault, unterminated, invalid_handle, unknown_secret, is_context, SessionError,
  CwMemHandle, Session, Call, set_handle, alloc_cw_handle, unmodified, known_handle, cw_handle,
  cw_handle_block, pop_handle, free_cw_handle, add_secret, new_secret, secret_for, secret_pointer,
  check_context,
}
use cwhost.Plugin.{load_u8, cstr_from, cstr, store_cut, write_cstr, enter, cut, head_of}
use cwhost.Plugin.Keeps.{
  Keeps, Same, chain, chosen, keeps_rules, Same-refl, pure-Keeps, raise-Keeps, store-Keeps,
  gets-Keeps, raise_if-Keeps,
}

module _ (u : Emulator) where
  pub check_context-Keeps : (context : ℕ) → Keeps u (check_context u context)
  check_context-Keeps context =
      raise_if-Keeps u (λ s. not (is_context u s.ctx_ptr context)) bad_context

  pub enter-Keeps : (spec : List ArgType) → Keeps u (enter u spec)
  unfolding enter
  enter-Keeps spec = search (keeps_rules, check_context-Keeps)

  pub set_handle-Keeps : (item : CwMemHandle) → Keeps u (set_handle u item)
  set_handle-Keeps item = record {
    at = λ s. record {
      progress = refl;
      phase = refl;
      fragment = refl;
      ctx_ptr = refl;
      closed = refl;
    };
  }

  pub pop_handle-Keeps : (handle : ℕ) → Keeps u (pop_handle u handle)
  pop_handle-Keeps handle = record {
    at = λ s. record {
      progress = refl;
      phase = refl;
      fragment = refl;
      ctx_ptr = refl;
      closed = refl;
    };
  }

  pub alloc_cw_handle-Keeps :
      (bytes : Bytes) (scoped : Bool) → Keeps u (alloc_cw_handle u bytes scoped)
  unfolding alloc_cw_handle
  alloc_cw_handle-Keeps bytes scoped = search (keeps_rules, set_handle-Keeps) depth 12

  pub free_cw_handle-Keeps : (handle : ℕ) → Keeps u (free_cw_handle u handle)
  unfolding free_cw_handle
  free_cw_handle-Keeps handle = search (keeps_rules, pop_handle-Keeps) depth 8

  pub load_u8-Keeps : (address : ℕ) → Keeps u (load_u8 u address)
  load_u8-Keeps address = record {
    at = λ s. by_bytes (read u s.manager.machine.memory address 1) s;
  }
    where
      by_bytes :
          (o : Option Bytes) (s : Session u)
          → Same u s
              (elim o as (λ _. Result SessionError ℕ × Session u) [
                | none ↦ (err guest_fault, s)
                | some bytes ↦ (or_raise (head_of bytes) guest_fault, s)
              ]).1
      by_bytes none s = Same-refl u s
      by_bytes (some bytes) s = Same-refl u s

  pub if-Keeps :
      {A : Type 0} (b : Bool) (f g : Call u A)
      → Keeps u f
      → Keeps u g
      → Keeps u (if b then f else g)
  if-Keeps true f g h k = h
  if-Keeps false f g h k = k

  pub cstr_step-Keeps :
      (byte : ℕ) (b : Bool) (rest : Call u Bytes)
      → Keeps u rest
      → Keeps u (elim b as (λ _. Call u Bytes) [
        | true ↦ pure []
        | false ↦ rest >>= λ bytes. pure (byte ∷ bytes)
      ])
  cstr_step-Keeps byte true rest h = pure-Keeps u []
  cstr_step-Keeps byte false rest h = chain u h (λ bytes. pure-Keeps u (byte ∷ bytes))

  pub cstr_from-Keeps : (fuel address : ℕ) → Keeps u (cstr_from u fuel address)
  cstr_from-Keeps zero address = raise-Keeps u unterminated
  cstr_from-Keeps (suc fuel) address =
      let rest = cstr_from-Keeps fuel (address + 1) in
      chain u (load_u8-Keeps address)
        (λ byte. cstr_step-Keeps byte (byte == 0) (cstr_from u fuel (address + 1)) rest)

  pub cstr-Keeps : (address : ℕ) → Keeps u (cstr u address)
  unfolding cstr
  cstr-Keeps address =
      if-Keeps (address == 0) (pure []) (cstr_from u 0x10_0000 address) (pure-Keeps u [])
        (cstr_from-Keeps 0x10_0000 address)

  pub store_cut-Keeps : (address : ℕ) (o : Option Bytes) → Keeps u (store_cut u address o)
  store_cut-Keeps address none = pure-Keeps u tt
  store_cut-Keeps address (some raw) = store-Keeps u address (raw ++ 0 ∷ [])

  pub write_cstr-Keeps :
      (address : ℕ) (max_length : ℤ) (value : Bytes)
      → Keeps u (write_cstr u address max_length value)
  unfolding write_cstr
  write_cstr-Keeps address max_length value =
      if-Keeps (address == 0) (pure tt) (store_cut u address (cut max_length value))
        (pure-Keeps u tt) (store_cut-Keeps address (cut max_length value))

  pub known_handle-Keeps : (o : Option CwMemHandle) → Keeps u (known_handle u o)
  known_handle-Keeps none = raise-Keeps u invalid_handle
  known_handle-Keeps (some item) = pure-Keeps u item

  pub unmodified-Keeps : (handle : ℕ) (item : CwMemHandle) → Keeps u (unmodified u handle item)
  unmodified-Keeps handle item = search (keeps_rules, if-Keeps) depth 8

  pub cw_handle-Keeps : (handle : ℕ) → Keeps u (cw_handle u handle)
  unfolding cw_handle
  cw_handle-Keeps handle =
      chosen u (λ o. known_handle u o >>= unmodified u handle) (λ s. lookup handle s.cw_handles)
        (λ o. chain u (known_handle-Keeps o) (unmodified-Keeps handle))

  pub cw_handle_block-Keeps : (handle : ℕ) → Keeps u (cw_handle_block u handle)
  unfolding cw_handle_block
  cw_handle_block-Keeps handle = search (keeps_rules, cw_handle-Keeps)

  pub add_secret-Keeps : (name : String) (word : ℕ) → Keeps u (add_secret u name word)
  add_secret-Keeps name word = record {
    at = λ s. record {
      progress = refl;
      phase = refl;
      fragment = refl;
      ctx_ptr = refl;
      closed = refl;
    };
  }

  pub new_secret-Keeps : (name : String) (panel : Bytes) → Keeps u (new_secret u name panel)
  new_secret-Keeps name panel = search (keeps_rules, add_secret-Keeps) depth 12

  pub secret_for-Keeps : (o : Option ℕ) (name : String) → Keeps u (secret_for u o name)
  secret_for-Keeps (some word) name = record { at = Same-refl u }
  secret_for-Keeps none name =
      chain u (gets-Keeps u (λ s. or_raise (Map.lookup name s.setup.panels) unknown_secret))
        (new_secret-Keeps name)

  pub secret_pointer-Keeps : (name : String) → Keeps u (secret_pointer u name)
  unfolding secret_pointer
  secret_pointer-Keeps name =
      chosen u (λ o. secret_for u o name) (λ s. Map.lookup name s.secret_words)
        (λ o. secret_for-Keeps o name)
