-- ===== src/Plugin/Keeps.antt =====
-- The callbacks leave the state of the request as it is, all but CWDonePluginRequest.
use cwhost.Base.{ℕ, ◌≡◌, ◌∙◌, Bool, true, false, Option, none, some, List, [], ◌∷◌, refl}
use cwhost.Base.Int.{pos}
use cwhost.Base.Result.{Result, ok, err}
use cwhost.Base.Action.{Action, pure, raise, raise_if, after, ◌>>=◌}
use cwhost.Base.Bytes.{Bytes}
use cwhost.Base.Map.{string_eq}
use cwhost.Guest.{Emulator}
use cwhost.Guest.Memory.{write, w8, w16, w32}
use cwhost.Guest.Arguments.{ArgType, Value, ArgError, args}
use cwhost.Guest.Scratch.{ScratchError}
use cwhost.Guest.Scratch as Scratch
use cwhost.Memory.{MemoryError}
use cwhost.Memory.Handles.{Manager}
use cwhost.Session.{
  bad_context, guest_fault, unterminated, invalid_handle, unknown_secret, is_context, SessionError,
  Fragment, Phase, Progress, Setup, CwMemHandle, Session, Call, with_manager, on_manager, on_heap,
  load, written, store, store_u8, store_u16, store_u32, store_data, allocated, guest_alloc,
  set_handle, alloc_cw_handle, unmodified, known_handle, cw_handle, cw_handle_block, pop_handle,
  free_cw_handle, add_secret, new_secret, secret_for, secret_pointer, check_context,
}
use cwhost.Plugin.{take_args, return}

module _ (u : Emulator) where
  -- the request's state, and what only the session itself changes
  pub record Same (s out : Session u) : Type 0 where
    pub progress : out.progress ≡ s.progress
    pub phase : out.phase ≡ s.phase
    pub fragment : out.fragment ≡ s.fragment
    pub ctx_ptr : out.ctx_ptr ≡ s.ctx_ptr
    pub closed : out.closed ≡ s.closed

  pub Same-refl : (s : Session u) → Same s s
  Same-refl s = record {
    progress = refl;
    phase = refl;
    fragment = refl;
    ctx_ptr = refl;
    closed = refl;
  }

  pub Same-trans : {s mid out : Session u} → Same s mid → Same mid out → Same s out
  Same-trans h k = record {
    progress = k.progress ∙ h.progress;
    phase = k.phase ∙ h.phase;
    fragment = k.fragment ∙ h.fragment;
    ctx_ptr = k.ctx_ptr ∙ h.ctx_ptr;
    closed = k.closed ∙ h.closed;
  }

  pub record Keeps {A : Type 0} (f : Call u A) : Type 0 where
    pub at : (s : Session u) → Same s (f s).1

  after_Same :
      {A B : Type 0} (s : Session u) (r : Result SessionError A × Session u) (k : A → Call u B)
      → Same s r.1
      → ((a : A) → Keeps (k a))
      → Same s (after r k).1
  after_Same s (ok a, mid) k h next = Same-trans h ((next a).at mid)
  after_Same s (err e, mid) k h next = h

  pub chain :
      {A B : Type 0} {m : Call u A} {k : A → Call u B}
      → Keeps m
      → ((a : A) → Keeps (k a))
      → Keeps (m >>= k)
  chain {m = m} {k = k} h next = record { at = λ s. after_Same s (m s) k (h.at s) next }

  pub pure-Keeps : {A : Type 0} (a : A) → Keeps (pure {S = Session u} {E = SessionError} a)
  pure-Keeps a = record { at = Same-refl }

  pub raise-Keeps : {A : Type 0} (e : SessionError) → Keeps (raise {S = Session u} {A = A} e)
  raise-Keeps e = record { at = Same-refl }

  written-Same : (o : Option u.State) (s : Session u) → Same s (written u o s).1
  written-Same none s = Same-refl s
  written-Same (some m) s = record {
    progress = refl;
    phase = refl;
    fragment = refl;
    ctx_ptr = refl;
    closed = refl;
  }

  pub store-Keeps : (address : ℕ) (bytes : Bytes) → Keeps (store u address bytes)
  store-Keeps address bytes = record {
    at = λ s. written-Same (write u s.manager.machine.memory address bytes) s;
  }

  pub store_u32-Keeps : (address value : ℕ) → Keeps (store_u32 u address value)
  store_u32-Keeps address value = record {
    at = λ s. written-Same (w32 u s.manager.machine.memory address value) s;
  }

  pub store_u16-Keeps : (address value : ℕ) → Keeps (store_u16 u address value)
  store_u16-Keeps address value = record {
    at = λ s. written-Same (w16 u s.manager.machine.memory address value) s;
  }

  pub store_u8-Keeps : (address value : ℕ) → Keeps (store_u8 u address value)
  store_u8-Keeps address value = record {
    at = λ s. written-Same (w8 u s.manager.machine.memory address value) s;
  }

  pub load-Keeps : {A : Type 0} (f : u.State → Option A) → Keeps (load u f)
  load-Keeps f = record { at = Same-refl }

  with_manager-Same :
      {A : Type 0} (s : Session u) (r : Result MemoryError A × Manager u)
      → Same s (with_manager u s r).1
  with_manager-Same s (r, m) = record {
    progress = refl;
    phase = refl;
    fragment = refl;
    ctx_ptr = refl;
    closed = refl;
  }

  pub on_manager-Keeps :
      {A : Type 0} (f : Action (Manager u) MemoryError A) → Keeps (on_manager u f)
  on_manager-Keeps f = record { at = λ s. with_manager-Same s (f s.manager) }

  allocated-Same : (s : Session u) (r : Result ScratchError ℕ × ℕ) → Same s (allocated u s r).1
  allocated-Same s (ok address, next) = record {
    progress = refl;
    phase = refl;
    fragment = refl;
    ctx_ptr = refl;
    closed = refl;
  }
  allocated-Same s (err e, next) = record {
    progress = refl;
    phase = refl;
    fragment = refl;
    ctx_ptr = refl;
    closed = refl;
  }

  pub guest_alloc-Keeps : (size align : ℕ) → Keeps (guest_alloc u size align)
  guest_alloc-Keeps size align = record {
    at = λ s. allocated-Same s (Scratch.alloc (pos size) (pos align) s.scratch_next);
  }

  pub return-Keeps : (value : ℕ) → Keeps (return u value)
  return-Keeps value = record {
    at = λ s. record {
      progress = refl;
      phase = refl;
      fragment = refl;
      ctx_ptr = refl;
      closed = refl;
    };
  }

  -- a look at the session, and a change of its tables
  pub gets-Keeps : {A : Type 0} (f : Session u → Result SessionError A) → Keeps (λ s. (f s, s))
  gets-Keeps f = record { at = Same-refl }

  pub raise_if-Keeps :
      (test : Session u → Bool) (e : SessionError) → Keeps (λ s. raise_if (test s) e s)
  raise_if-Keeps test e = record { at = λ s. by_test (test s) s }
    where
      by_test : (b : Bool) (s : Session u) → Same s (raise_if b e s).1
      by_test true s = Same-refl s
      by_test false s = Same-refl s

  -- a call that is chosen by what the session holds
  pub chosen :
      {A B : Type 0} (f : A → Call u B) (g : Session u → A)
      → ((a : A) → Keeps (f a))
      → Keeps (λ s. f (g s) s)
  chosen f g h = record { at = λ s. (h (g s)).at s }

  pub store_data-Keeps : (bytes : Bytes) (address : ℕ) → Keeps (store_data u bytes address)
  store_data-Keeps [] address = pure-Keeps tt
  store_data-Keeps (b ∷ bytes) address = store-Keeps address (b ∷ bytes)

  pub take_args-Keeps : (spec : List ArgType) → Keeps (take_args u spec)
  unfolding take_args
  take_args-Keeps spec = record {
    at = λ s. by_result (args u s.manager.machine.memory {F = Unit {0}} s.gprs (λ _. tt) spec) s;
  }
    where
      by_result :
          (r : Result ArgError (List (Value (Unit {0})))) (s : Session u)
          → Same s
              (elim r as (λ _. Result SessionError (List (Value (Unit {0}))) × Session u) [
                | ok values ↦ (ok values, s)
                | err e ↦ (err (cwhost.Session.arguments e), s)
              ]).1
      by_result (ok values) s = Same-refl s
      by_result (err e) s = Same-refl s

  pub ruleset keeps_rules = (
    chain, pure-Keeps, raise-Keeps, store-Keeps, store_u32-Keeps, store_u16-Keeps, store_u8-Keeps,
    load-Keeps, on_manager-Keeps, guest_alloc-Keeps, return-Keeps, gets-Keeps, store_data-Keeps,
    take_args-Keeps,
  )
