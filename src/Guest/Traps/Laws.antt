-- ===== src/Guest/Traps/Laws.antt =====
-- Guest.alloc_trap_slot: names and addresses stay in bijection.
use Prim.Native.String.{String}
use cwhost.Base.{
  ℕ, ◌+◌, ◌*◌, ◌/◌, ◌≡◌, ◌⊎◌, ◌≤◌, ◌<◌, ◌∙◌, true, false, Option, none, some, ◌==◌, ltb, refl, sym,
  ap, arith, Bool-cases, inl, inr,
}
use cwhost.Base.Result.{ok, err}
use cwhost.Base.Dict as Dict
use cwhost.Base.Map as Map
use cwhost.Base.Map.{Eq, string_eq}
use cwhost.Guest.{Emulator}
use cwhost.Guest.Memory.{w32}
use cwhost.Guest.Traps.{
  trap_base, trap_size, blr, trap_page_exhausted, Slots, slots_new, stored, entered, slot_for,
  alloc_trap_slot,
}

-- A name has an address exactly where the address has that name, and the addresses are the first
-- words of the trap page.
pub record IsSlots {u : Emulator} (s : Slots u) : Type 0 where
  pub in_page : s.trap_next ≤ trap_size / 4
  pub named :
      (name : String) (a : ℕ)
      → Map.lookup name s.trap_addresses ≡ some a
      → Dict.lookup a s.traps ≡ some name
  pub found :
      (name : String) (a : ℕ)
      → Dict.lookup a s.traps ≡ some name
      → Map.lookup name s.trap_addresses ≡ some a
  pub below :
      (name : String) (a : ℕ) → Dict.lookup a s.traps ≡ some name → a < trap_base + s.trap_next * 4
  pub above : (name : String) (a : ℕ) → Dict.lookup a s.traps ≡ some name → trap_base ≤ a

-- a value that is found after an insertion is the new one or an old one
found_name :
    (name other : String) (address a : ℕ) (d : Map.Map String ℕ)
    → Map.lookup other (Map.insert name address d) ≡ some a
    → ((name ≡ other) × (address ≡ a))
      ⊎ ((string_eq.beq name other ≡ false) × (Map.lookup other d ≡ some a))
found_name name other address a d q = elim (Bool-cases (string_eq.beq name other)) [
  | inl same ↦
      let e : name ≡ other = (string_eq.beq_iff name other).0 same in
      let here : Map.lookup other (Map.insert name address d) ≡ some address =
        rw (← e) (Map.lookup-insert_self name address d) in
      inl (e, cc)
  | inr new ↦ inr (new, sym (Map.lookup-insert_ne name other address d new) ∙ q)
]

found_address :
    (address a : ℕ) (name other : String) (d : Dict.Dict String)
    → Dict.lookup a (Dict.insert address name d) ≡ some other
    → ((address ≡ a) × (name ≡ other)) ⊎ (((address == a) ≡ false) × (Dict.lookup a d ≡ some other))
found_address address a name other d q =
    let split = Dict.lookup-insert address a name d in
    elim (Bool-cases (address == a)) [
      | inl same ↦
          let here : Dict.lookup a (Dict.insert address name d) ≡ some name = rw same at split in
          inl (ground arith, cc)
      | inr new ↦
          let there : Dict.lookup a (Dict.insert address name d) ≡ Dict.lookup a d =
            rw new at split in
          inr (new, sym there ∙ q)
    ]

module _ (u : Emulator) where
  pub slots_new-IsSlots : (m : u.State) → IsSlots (slots_new u m)
  slots_new-IsSlots m = record {
    in_page = omega arith;
    named = λ name a q. absurd cc;
    found = λ name a q. absurd cc;
    below = λ name a q. absurd cc;
    above = λ name a q. absurd cc;
  }

  -- the tables with a new name at the next address
  entered-IsSlots :
      (name : String) (s : Slots u)
      → IsSlots s
      → Map.lookup name s.trap_addresses ≡ none
      → s.trap_next < trap_size / 4
      → IsSlots (entered u name (trap_base + s.trap_next * 4) s)
  entered-IsSlots name s h new room =
      let address = trap_base + s.trap_next * 4 in
      record {
        in_page = omega arith;
        named = λ other a q. elim (found_name name other address a s.trap_addresses q) [
          | inl (same, at) ↦
              let yes : (address == a) ≡ true = ground arith in
              rw (Dict.lookup-insert address a name s.traps, yes) (ap some same)
          | inr (differs, old) ↦
              let there = h.named other a old in
              let lower = h.below other a there in
              let no : (address == a) ≡ false = ground arith in
              rw (Dict.lookup-insert address a name s.traps, no) there
        ];
        found = λ other a q. elim (found_address address a name other s.traps q) [
          | inl (at, same) ↦
              rw (← same, ← at) (Map.lookup-insert_self name address s.trap_addresses)
          | inr (differs, old) ↦
              let there = h.found other a old in
              elim (Bool-cases (string_eq.beq name other)) [
                | inl clash ↦
                    let e : Map.lookup name s.trap_addresses ≡ some a =
                      ap (λ x. Map.lookup x s.trap_addresses)
                        ((string_eq.beq_iff name other).0 clash)
                      ∙ there in
                    absurd cc
                | inr apart ↦
                    rw (Map.lookup-insert_ne name other address s.trap_addresses apart) there
              ]
        ];
        below = λ other a q. elim (found_address address a name other s.traps q) [
          | inl (at, same) ↦ omega arith
          | inr (differs, old) ↦ let lower = h.below other a old in omega arith
        ];
        above = λ other a q. elim (found_address address a name other s.traps q) [
          | inl (at, same) ↦ omega arith
          | inr (differs, old) ↦ h.above other a old
        ];
      }

  -- the memory is no part of the invariant
  stored-IsSlots :
      (address : ℕ) (s : Slots u) (written : Option u.State)
      → IsSlots s
      → IsSlots (stored u address s written).1
  stored-IsSlots address s none h = h
  stored-IsSlots address s (some m) h = record {
    in_page = h.in_page;
    named = h.named;
    found = h.found;
    below = h.below;
    above = h.above;
  }

  stored-result :
      (address : ℕ) (s : Slots u) (written : Option u.State) {a : ℕ}
      → (stored u address s written).0 ≡ ok a
      → (address ≡ a) × ((stored u address s written).1.trap_addresses ≡ s.trap_addresses)
  stored-result address s none q = absurd cc
  stored-result address s (some m) q = (cc, refl)

  slot_for-IsSlots :
      (old : Option ℕ) (name : String) (s : Slots u)
      → Map.lookup name s.trap_addresses ≡ old
      → IsSlots s
      → IsSlots (slot_for u old name s).1
  slot_for-IsSlots (some a) name s at h = h
  slot_for-IsSlots none name s at h = elim (Bool-cases (ltb s.trap_next (trap_size / 4))) [
    | inl room ↦ rw room (
        stored-IsSlots (trap_base + s.trap_next * 4) _
          (w32 u s.memory (trap_base + s.trap_next * 4) blr)
          (entered-IsSlots name s h at (ground arith)))
    | inr full ↦ rw full h
  ]

  slot_for-found :
      (old : Option ℕ) (name : String) (s : Slots u) {a : ℕ}
      → Map.lookup name s.trap_addresses ≡ old
      → (slot_for u old name s).0 ≡ ok a
      → Map.lookup name (slot_for u old name s).1.trap_addresses ≡ some a
  slot_for-found (some b) name s at q = let e : b ≡ _ = cc in rw at (ap some e)
  slot_for-found none name s {a = a} at q = elim (Bool-cases (ltb s.trap_next (trap_size / 4))) [
    | inl room ↦
        let address = trap_base + s.trap_next * 4 in
        let written = w32 u s.memory address blr in
        let q1 : (stored u address (entered u name address s) written).0 ≡ ok a = rw room at q in
        let (e, same) = stored-result address (entered u name address s) written q1 in
        rw (room, same) (Map.lookup-insert_self name address s.trap_addresses ∙ ap some e)
    | inr full ↦ let q1 : err trap_page_exhausted ≡ ok a = rw full at q in absurd cc
  ]

  -- Whatever the outcome, a call of `alloc_trap_slot` keeps the names and the addresses of the trap
  -- page in bijection: an address has a name exactly where the name has that address, and each lies
  -- in the part of the page that is in use.
  pub alloc_trap_slot-IsSlots :
      (name : String) (s : Slots u) → IsSlots s → IsSlots (alloc_trap_slot u name s).1
  unfolding alloc_trap_slot
  alloc_trap_slot-IsSlots name s h =
      slot_for-IsSlots (Map.lookup name s.trap_addresses) name s refl h

  -- Where `alloc_trap_slot` returns an address, the trap hook finds the name at that address, and a
  -- second call with the name returns the same address and changes nothing.
  pub alloc_trap_slot-returns :
      (name : String) (s : Slots u) {a : ℕ}
      → IsSlots s
      → (alloc_trap_slot u name s).0 ≡ ok a
      → (Dict.lookup a (alloc_trap_slot u name s).1.traps ≡ some name)
        × (alloc_trap_slot u name (alloc_trap_slot u name s).1
            ≡ (ok a, (alloc_trap_slot u name s).1))
  unfolding alloc_trap_slot
  alloc_trap_slot-returns name s {a = a} h q =
      let after = alloc_trap_slot-IsSlots name s h in
      let at = slot_for-found (Map.lookup name s.trap_addresses) name s refl q in
      (after.named name a at, ap (λ o. slot_for u o name (alloc_trap_slot u name s).1) at)
