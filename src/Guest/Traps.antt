-- ===== src/Guest/Traps.antt =====
-- guest.py, Guest.alloc_trap_slot: the addresses in the trap page that stand for imported functions.

pub mod Laws
use Prim.Native.String.{String}
use cwhost.Base.{ℕ, ◌+◌, ◌*◌, ◌/◌, Bool, Option, none, some, [], ltb, if◌then◌else◌}
use cwhost.Base.Result.{Result, ok, err}
use cwhost.Base.Dict.{Dict}
use cwhost.Base.Dict as Dict
use cwhost.Base.Map.{Map, string_eq}
use cwhost.Base.Map as Map
use cwhost.Guest.{Emulator}
use cwhost.Guest.Memory.{w32}

abbrev pub trap_base : ℕ
trap_base = 0x2800_0000

abbrev pub trap_size : ℕ
trap_size = 0x10000

-- the PowerPC instruction blr
abbrev pub blr : ℕ
blr = 0x4E80_0020

pub data TrapError : Type 0 where
  trap_page_exhausted guest_fault : TrapError

-- the part of the guest's state that `alloc_trap_slot` reads and changes
pub record Slots (u : Emulator) : Type 0 where
  pub memory : u.State
  pub trap_next : ℕ
  pub traps : Dict String
  pub trap_addresses : Map String ℕ

module _ (u : Emulator) where
  -- Guest.__init__
  abbrev pub slots_new : u.State → Slots u
  slots_new m = record { memory = m; trap_next = 0; traps = []; trap_addresses = [] }

  abbrev pub stored : ℕ → Slots u → Option u.State → Result TrapError ℕ × Slots u
  stored address s none = (err guest_fault, s)
  stored address s (some m) = (ok address, record s { memory = m })

  -- the tables with a new name at an address
  abbrev pub entered : String → ℕ → Slots u → Slots u
  entered name address s = record s {
    trap_next = s.trap_next + 1;
    traps = Dict.insert address name s.traps;
    trap_addresses = Map.insert name address s.trap_addresses;
  }

  -- a name that has no slot yet
  abbrev pub next_slot : String → Slots u → Result TrapError ℕ × Slots u
  next_slot name s =
      let address = trap_base + s.trap_next * 4 in
      stored address (entered name address s) (w32 u s.memory address blr)

  abbrev pub slot_for : Option ℕ → String → Slots u → Result TrapError ℕ × Slots u
  slot_for (some address) name s = (ok address, s)
  slot_for none name s =
      if ltb s.trap_next (trap_size / 4) then next_slot name s else (err trap_page_exhausted, s)

  -- Guest.alloc_trap_slot
  unfoldable pub alloc_trap_slot : String → Slots u → Result TrapError ℕ × Slots u
  unfolding w32
  alloc_trap_slot name s = slot_for (Map.lookup name s.trap_addresses) name s
