-- ===== src/Plugin.antt =====
-- pluginlib.py: the callbacks that a plug-in calls, on the state of the session. Modelled are those
-- that neither pack structures nor ask the file system; Plugin/Callbacks has the callbacks.
pub mod Callbacks
pub mod Table
pub mod Keeps
pub mod Steps
pub mod Serving
pub mod Context
pub mod Protocol
pub mod Serve
use Prim.Native.String.{String}
use cwhost.Base.{
  ℕ, zero, suc, ◌+◌, ◌-◌, Bool, true, false, not, ◌||◌, Option, none, some, List, [], ◌∷◌, ◌++◌,
  length, take, ltb, leb, ◌==◌, if◌then◌else◌,
}
use cwhost.Base.Int.{ℤ, pos, negsuc}
use cwhost.Base.Result.{Result, ok, err, or_raise}
use cwhost.Base.Action.{Action, pure, raise, lift, raise_if, ◌>>=◌, ◌>>◌}
use cwhost.Base.Bytes.{Bytes}
use cwhost.Base.Dict.{Dict, lookup, insert, erase}
use cwhost.Base.Map.{string_eq}
use cwhost.Base.Map as Map
use cwhost.Guest.{Emulator}
use cwhost.Guest.Memory.{read}
use cwhost.Guest.Arguments.{ArgType, ptr, long, short, octet, Value, int, float, ArgError, args}
use cwhost.Memory.Handles as Handles
use cwhost.Session.{
  SessionError, outside_request, unterminated, unknown_preferences, unimplemented_import,
  guest_fault, arguments, Session, SessionFlags, Call, on_manager, load, store, store_u8, store_u16,
  store_u32, guest_alloc, alloc_cw_handle, cw_handle, cw_handle_block, free_cw_handle, text_pointer,
  secret_pointer, check_context,
}
use cwhost.Session.Requests.{done_request}

-- the value of a pointer, and of a number
abbrev pub int_at : ℕ → List (Value (Unit {0})) → ℤ
int_at n [] = pos 0
int_at zero (int value ∷ values) = value
int_at zero (float _ ∷ values) = pos 0
int_at (suc n) (value ∷ values) = int_at n values

abbrev pub pointer_at : ℕ → List (Value (Unit {0})) → ℕ
pointer_at n values = elim (int_at n values) [ pos k ↦ k | negsuc k ↦ 0 ]

-- a number of 32 bits as signed: `result -= 1 << 32` where bit 31 is set
abbrev pub signed32 : ℕ → ℤ
signed32 n = if ltb n 0x8000_0000 then pos n else negsuc (0xFFFF_FFFF - n)

-- value[: max(0, max_length - 1)], for a positive `max_length`
abbrev pub cut : ℤ → Bytes → Option Bytes
cut (pos zero) value = none
cut (pos (suc n)) value = some (take n value)
cut (negsuc _) value = none

abbrev pub head_of : Bytes → Option ℕ
head_of [] = none
head_of (b ∷ _) = some b

abbrev pub bit : Bool → ℕ
bit true = 1
bit false = 0

module _ (u : Emulator) where
  -- guest.args, of arguments without doubles
  unfoldable pub take_args : List ArgType → Call u (List (Value (Unit {0})))
  unfolding args
  take_args spec s = elim (args u s.manager.machine.memory {F = Unit {0}} s.gprs (λ _. tt) spec) [
    | ok values ↦ (ok values, s)
    | err e ↦ (err (arguments e), s)
  ]

  -- _result: guest.ret of a value, which is the callback's own value too
  abbrev pub return : ℕ → Call u ℕ
  return value s = (ok value, record s { gprs = λ n. if n == 3 then value else s.gprs n })

  -- guest.u8
  abbrev pub load_u8 : ℕ → Call u ℕ
  load_u8 address s = elim (read u s.manager.machine.memory address 1) [
    | none ↦ (err guest_fault, s)
    | some bytes ↦ (or_raise (head_of bytes) guest_fault, s)
  ]

  -- the loop of _cstr, with the number of bytes that may still be read
  abbrev pub cstr_from : ℕ → ℕ → Call u Bytes
  cstr_from zero address = raise unterminated
  cstr_from (suc fuel) address = load_u8 address >>= λ byte. elim (byte == 0) [
    | true ↦ pure []
    | false ↦ cstr_from fuel (address + 1) >>= λ rest. pure (byte ∷ rest)
  ]

  -- _cstr
  unfoldable pub cstr : ℕ → Call u Bytes
  cstr address = if address == 0 then pure [] else cstr_from 0x10_0000 address

  abbrev pub store_cut : ℕ → Option Bytes → Call u (Unit {0})
  store_cut address none = pure tt
  store_cut address (some raw) = store u address (raw ++ 0 ∷ [])

  -- _write_cstr
  unfoldable pub write_cstr : ℕ → ℤ → Bytes → Call u (Unit {0})
  write_cstr address max_length value =
      if address == 0 then pure tt else store_cut address (cut max_length value)

  -- what every callback starts with: its arguments, and the test of the context
  unfoldable pub enter : List ArgType → Call u (List (Value (Unit {0})))
  unfolding take_args
  enter spec = do values ← take_args spec; check_context u (pointer_at 0 values); pure values
