-- ===== src/Tests/Guest.antt =====
-- guest.py: slots of the trap page, and arguments in registers and on the stack, over memory whose bytes are their addresses.
use cwhost.Base.{ℕ, ◌+◌, ◌*◌, ◌%◌, ◌≡◌, refl, true, some, List, [], ◌∷◌, length, get_elem?}
use cwhost.Base.Int.{pos, negsuc}
use cwhost.Base.Result.{ok, err}
use cwhost.Guest.{Emulator, bytes_from, patched}
use cwhost.Guest.Arguments.{
  ArgType, long, ptr, short, octet, double, wide, other, Value, int, float, unsupported, args,
}
use cwhost.Guest.Traps.{Slots, slots_new, alloc_trap_slot}
use cwhost.Guest.Traps.Laws.{IsSlots, slots_new-IsSlots, alloc_trap_slot-IsSlots}
use cwhost.Guest.Arguments.Laws.{Placed, args-Placed}

-- all addresses are mapped
abbrev ram : Emulator
ram = record {
  State = ℕ → ℕ;
  mapped = λ m x. true;
  byte = λ m. m;
  mem_read = λ m a n. some (bytes_from m a n);
  mem_write = λ m a bs. some (patched a bs m);
  read_mapped = λ m a n h. refl;
  write_mapped = λ m a bs h. (patched a bs m, refl, λ x. refl, λ x. refl);
}

abbrev memory : ℕ → ℕ
memory x = x % 256

-- register n holds 100 * n
abbrev reg : ℕ → ℕ
reg n = 100 * n

abbrev freg : ℕ → ℕ
freg n = n

abbrev spec : List ArgType
spec = short ∷ double ∷ long ∷ wide ∷ octet ∷ ptr ∷ long ∷ []

-- words 0, 3, 4 and 5, 6, 7, and the stack's word 8 at 100 + 24 + 32
abbrev values : List (Value ℕ)
values =
    int (pos 300)
    ∷ float 1
    ∷ int (pos 600)
    ∷ int (pos (700 * 0x1_0000_0000 + 800))
    ∷ int (pos (900 % 256))
    ∷ int (pos 1000)
    ∷ int (pos 0x9C9D_9E9F)
    ∷ []

spec_read : args ram memory reg freg spec ≡ ok values
unfolding args cwhost.Guest.Memory.read
spec_read = refl

negative : args ram memory (λ n. 0xFFFF) freg (short ∷ []) ≡ ok (int (negsuc 0) ∷ [])
unfolding args cwhost.Guest.Memory.read
negative = refl

refused : args ram memory reg freg (long ∷ other "f32" ∷ []) ≡ err unsupported
unfolding args cwhost.Guest.Memory.read
refused = refl

args-Placed_example :
    (length values ≡ length spec)
    × ((i : ℕ) (item : ArgType)
        → get_elem? spec i ≡ some item
        → Placed ram memory reg freg spec 0 0 values i item)
args-Placed_example = args-Placed ram memory reg freg spec spec_read

abbrev one_slot : Slots ram
one_slot = (alloc_trap_slot ram "NewPtr" (slots_new ram memory)).1

second_slot : (alloc_trap_slot ram "DisposePtr" one_slot).0 ≡ ok 0x2800_0004
unfolding alloc_trap_slot cwhost.Guest.Memory.write
second_slot = refl

same_slot : (alloc_trap_slot ram "NewPtr" one_slot).0 ≡ ok 0x2800_0000
unfolding alloc_trap_slot cwhost.Guest.Memory.write
same_slot = refl

one_slot-IsSlots : IsSlots one_slot
one_slot-IsSlots =
    alloc_trap_slot-IsSlots ram "NewPtr" (slots_new ram memory) (slots_new-IsSlots ram memory)

alloc_trap_slot-IsSlots_example : IsSlots (alloc_trap_slot ram "DisposePtr" one_slot).1
alloc_trap_slot-IsSlots_example = alloc_trap_slot-IsSlots ram "DisposePtr" one_slot one_slot-IsSlots
