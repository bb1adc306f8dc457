-- ===== src/Guest/Arguments/Laws.antt =====
-- What Guest.args returns: each argument from its own place in the argument area.
use cwhost.Base.{
  ℕ, zero, suc, ◌+◌, ◌*◌, ◌/◌, ◌%◌, ◌≡◌, ◌≤◌, ◌<◌, ◌⊎◌, Bool, true, false, some, List, [], ◌∷◌,
  length, take, get_elem?, ltb, refl, ap, arith, Bool-cases, inl, inr,
}
use cwhost.Base.Int.{pos, IsSigned}
use cwhost.Base.Result.{Result, ok, err, raise_if, or_raise, or_raise-eq-ok, ◌>>◌, >>=-eq-ok}
use cwhost.Guest.{Emulator}
use cwhost.Guest.Memory.{u32}
use cwhost.Guest.Arguments.{
  ArgType, long, ptr, short, unsigned_short, octet, double, unsigned_wide, wide, other, ArgError,
  Value, int, float, width, floats, is_other, any_other, signed16, signed64, unsupported,
  guest_fault, invalid_register, word_at, wide_at, fpr, value_at, args_from, args,
}

-- the bytes that an argument takes in the argument area
abbrev pub bytes_of : ArgType → ℕ
bytes_of double = 8
bytes_of unsigned_wide = 8
bytes_of wide = 8
bytes_of _ = 4

-- the words, and the doubles, of a list of arguments
abbrev pub words_of : List ArgType → ℕ
words_of [] = 0
words_of (item ∷ spec) = bytes_of item / 4 + words_of spec

abbrev pub doubles_of : List ArgType → ℕ
doubles_of [] = 0
doubles_of (double ∷ spec) = 1 + doubles_of spec
doubles_of (_ ∷ spec) = doubles_of spec

doubles_lem :
    (item : ArgType) (spec : List ArgType)
    → doubles_of (item ∷ spec) ≡ floats item + doubles_of spec
doubles_lem double spec = refl
doubles_lem unsigned_wide spec = omega arith
doubles_lem wide spec = omega arith
doubles_lem octet spec = omega arith
doubles_lem unsigned_short spec = omega arith
doubles_lem short spec = omega arith
doubles_lem long spec = omega arith
doubles_lem ptr spec = omega arith
doubles_lem (other _) spec = omega arith

width_lem : (item : ArgType) → bytes_of item / 4 ≡ width item
width_lem double = refl
width_lem unsigned_wide = refl
width_lem wide = refl
width_lem octet = refl
width_lem unsigned_short = refl
width_lem short = refl
width_lem long = refl
width_lem ptr = refl
width_lem (other _) = refl

signed16-IsSigned : (n : ℕ) → n < 0x1_0000 → IsSigned 0x1_0000 n (signed16 n)
signed16-IsSigned n less = elim (Bool-cases (ltb n 0x8000)) [
  | inl plus ↦ rw plus (refl, ground arith)
  | inr minus ↦ let half : 0x8000 ≤ n = ground arith in rw minus (omega arith, omega arith)
]

signed64-IsSigned :
    (n : ℕ) → n < 0x1_0000_0000_0000_0000 → IsSigned 0x1_0000_0000_0000_0000 n (signed64 n)
signed64-IsSigned n less = elim (Bool-cases (ltb n 0x8000_0000_0000_0000)) [
  | inl plus ↦ rw plus (refl, ground arith)
  | inr minus ↦
      let half : 0x8000_0000_0000_0000 ≤ n = ground arith in rw minus (omega arith, omega arith)
]

signed64_lem :
    (n : ℕ) → IsSigned 0x1_0000_0000_0000_0000 n (signed64 n) ⊎ (0x1_0000_0000_0000_0000 ≤ n)
signed64_lem n = elim (Bool-cases (ltb n 0x1_0000_0000_0000_0000)) [
  | inl less ↦ inl (signed64-IsSigned n (ground arith))
  | inr more ↦ inr (ground arith)
]

passed :
    {A : Type 0} (test : Bool) (e : ArgError) (rest : Result ArgError A) {a : A}
    → (raise_if test e >> rest) ≡ ok a
    → rest ≡ ok a
passed true e rest q = absurd cc
passed false e rest q = q

module _ (u : Emulator) (m : u.State) {F : Type 0} (reg : ℕ → ℕ) (freg : ℕ → F) where
  -- Word `k` of the argument area: the first eight are the general registers from r3 on, the others
  -- stand on the stack, 24 bytes above the stack pointer r1 and four bytes each.
  abbrev pub IsWord : ℕ → ℕ → Type 0
  IsWord k n =
      ((k < 8) × (n ≡ reg (k + 3) % 0x1_0000_0000))
      ⊎ ((8 ≤ k) × (u32 u m (reg 1 % 0x1_0000_0000 + 24 + 4 * k) ≡ some n))

  -- What an argument is that starts at a word of the area, behind some doubles: a double is in a
  -- floating-point register from f1 on, one of eight bytes has its high word first, one of one or two
  -- bytes is the low part of its word. The signed ones are two's complement, of words that are words.
  abbrev pub IsArgument : ArgType → ℕ → ℕ → Value F → Type 0
  IsArgument double word index (float x) = (index < 31) × (x ≡ freg (index + 1))
  IsArgument unsigned_wide word index (int (pos n)) =
      (high : ℕ) × (low : ℕ) × IsWord word high
      × IsWord (word + 1) low
      × (n ≡ high * 0x1_0000_0000 + low)
  IsArgument wide word index (int z) =
      (high : ℕ) × (low : ℕ) × IsWord word high
      × IsWord (word + 1) low
      × (IsSigned 0x1_0000_0000_0000_0000 (high * 0x1_0000_0000 + low) z
          ⊎ (0x1_0000_0000_0000_0000 ≤ high * 0x1_0000_0000 + low))
  IsArgument octet word index (int (pos n)) = (w : ℕ) × IsWord word w × (n ≡ w % 0x100)
  IsArgument unsigned_short word index (int (pos n)) = (w : ℕ) × IsWord word w × (n ≡ w % 0x1_0000)
  IsArgument short word index (int z) = (w : ℕ) × IsWord word w × IsSigned 0x1_0000 (w % 0x1_0000) z
  IsArgument long word index (int (pos n)) = IsWord word n
  IsArgument ptr word index (int (pos n)) = IsWord word n
  IsArgument _ _ _ _ = ⊥

  word_at-IsWord : (word : ℕ) {n : ℕ} → word_at u m reg freg word ≡ ok n → IsWord word n
  word_at-IsWord word {n = n} q = elim (Bool-cases (ltb word 8)) [
    | inl low ↦
        let less : word < 8 = ground arith in
        let valid : ltb 31 (3 + word) ≡ false = ground arith in
        let same : 3 + word ≡ word + 3 = omega arith in
        let found : ok (reg (3 + word) % 0x1_0000_0000) ≡ ok n = rw (low, valid) at q in
        inl (less, rw (← same) cc)
    | inr high ↦
        let more : 8 ≤ word = ground arith in
        let found : or_raise (u32 u m (reg 1 % 0x1_0000_0000 + 24 + 4 * word)) guest_fault ≡ ok n =
          rw high at q in
        inr
          (more, or_raise-eq-ok (u32 u m (reg 1 % 0x1_0000_0000 + 24 + 4 * word)) guest_fault found)
  ]

  fpr_lem :
      (index : ℕ) {x : F}
      → fpr u m reg freg (1 + index) ≡ ok x
      → (index < 31) × (x ≡ freg (index + 1))
  fpr_lem index {x = x} q = elim (Bool-cases (ltb 31 (1 + index))) [
    | inl above ↦ let bad : err invalid_register ≡ ok x = rw above at q in absurd cc
    | inr within ↦
        let found : ok (freg (1 + index)) ≡ ok x = rw within at q in
        let same : 1 + index ≡ index + 1 = omega arith in (ground arith, rw (← same) cc)
  ]

  wide_at_lem :
      (word : ℕ) {n : ℕ}
      → wide_at u m reg freg word ≡ ok n
      → (high : ℕ) × (low : ℕ) × IsWord word high
        × IsWord (word + 1) low
        × (n ≡ high * 0x1_0000_0000 + low)
  wide_at_lem word q =
      let (high, q0, q1) = >>=-eq-ok (word_at u m reg freg word) _ q in
      let (low, q2, q3) = >>=-eq-ok (word_at u m reg freg (word + 1)) _ q1 in
      (high, low, word_at-IsWord word q0, word_at-IsWord (word + 1) q2, cc)

  value_at-IsArgument :
      (item : ArgType) (word index : ℕ) {v : Value F}
      → value_at u m reg freg item word index ≡ ok v
      → IsArgument item word index v
  unfolding value_at
  value_at-IsArgument double word index {v = v} q =
      let (x, q0, q1) = >>=-eq-ok (fpr u m reg freg (1 + index)) _ q in
      let e : v ≡ float x = cc in rw e (fpr_lem index q0)
  value_at-IsArgument unsigned_wide word index {v = v} q =
      let (n, q0, q1) = >>=-eq-ok (wide_at u m reg freg word) _ q in
      let e : v ≡ int (pos n) = cc in rw e (wide_at_lem word q0)
  value_at-IsArgument wide word index {v = v} q =
      let (n, q0, q1) = >>=-eq-ok (wide_at u m reg freg word) _ q in
      let (high, low, is_high, is_low, same) = wide_at_lem word q0 in
      let e : v ≡ int (signed64 n) = cc in
      rw (e, same) (high, low, is_high, is_low, signed64_lem (high * 0x1_0000_0000 + low))
  value_at-IsArgument octet word index {v = v} q =
      let (n, q0, q1) = >>=-eq-ok (word_at u m reg freg word) _ q in
      let e : v ≡ int (pos (n % 0x100)) = cc in rw e (n, word_at-IsWord word q0, refl)
  value_at-IsArgument unsigned_short word index {v = v} q =
      let (n, q0, q1) = >>=-eq-ok (word_at u m reg freg word) _ q in
      let e : v ≡ int (pos (n % 0x1_0000)) = cc in rw e (n, word_at-IsWord word q0, refl)
  value_at-IsArgument short word index {v = v} q =
      let (n, q0, q1) = >>=-eq-ok (word_at u m reg freg word) _ q in
      let e : v ≡ int (signed16 (n % 0x1_0000)) = cc in
      rw e (n, word_at-IsWord word q0, signed16-IsSigned (n % 0x1_0000) (omega arith))
  value_at-IsArgument long word index {v = v} q =
      let (n, q0, q1) = >>=-eq-ok (word_at u m reg freg word) _ q in
      let e : v ≡ int (pos n) = cc in rw e (word_at-IsWord word q0)
  value_at-IsArgument ptr word index {v = v} q =
      let (n, q0, q1) = >>=-eq-ok (word_at u m reg freg word) _ q in
      let e : v ≡ int (pos n) = cc in rw e (word_at-IsWord word q0)
  value_at-IsArgument (other _) word index q = absurd cc

  -- argument `i` of a list, which starts at a word and behind some doubles
  abbrev pub Placed : List ArgType → ℕ → ℕ → List (Value F) → ℕ → ArgType → Type 0
  Placed spec word index values i item =
      (v : Value F) × (get_elem? values i ≡ some v)
      × IsArgument item (word + words_of (take i spec)) (index + doubles_of (take i spec)) v

  place :
      (first : ArgType) (spec : List ArgType) (word index : ℕ) (v : Value F) (vs : List (Value F))
      → value_at u m reg freg first word index ≡ ok v
      → ((i : ℕ) (item : ArgType)
          → get_elem? spec i ≡ some item
          → Placed spec (word + width first) (index + floats first) vs i item)
      → (i : ℕ) (item : ArgType) → get_elem? (first ∷ spec) i ≡ some item
      → Placed (first ∷ spec) word index (v ∷ vs) i item
  place first spec word index v vs q rest zero item at =
      let same : first ≡ item = cc in
      let e : word + 0 ≡ word = omega arith in
      let e' : index + 0 ≡ index = omega arith in
      rw (← same, e, e') (v, refl, value_at-IsArgument first word index q)
  place first spec word index v vs q rest (suc i) item at =
      let (w, found, is) = rest i item at in
      let e : word + (bytes_of first / 4 + words_of (take i spec))
          ≡ word + width first + words_of (take i spec) =
        omega (arith, width_lem first) in
      let e' : index + doubles_of (first ∷ take i spec)
          ≡ index + floats first + doubles_of (take i spec) =
        omega (arith, doubles_lem first (take i spec)) in
      rw (e, e') (w, found, is)

  args_from-Placed :
      (spec : List ArgType) (word index : ℕ) {values : List (Value F)}
      → args_from u m reg freg spec word index ≡ ok values
      → (length values ≡ length spec)
        × ((i : ℕ) (item : ArgType)
            → get_elem? spec i ≡ some item
            → Placed spec word index values i item)
  unfolding args_from
  args_from-Placed [] word index {values = values} q =
      let e : values ≡ [] = cc in (rw e refl, λ i item at. absurd cc)
  args_from-Placed (first ∷ spec) word index {values = values} q =
      let (v, q0, q1) = >>=-eq-ok (value_at u m reg freg first word index) _ q in
      let (vs, q2, q3) =
        >>=-eq-ok (args_from u m reg freg spec (word + width first) (index + floats first)) _ q1 in
      let e : values ≡ v ∷ vs = cc in
      let (size, rest) = args_from-Placed spec (word + width first) (index + floats first) q2 in
      rw e (ap suc size, place first spec word index v vs q0 rest)

  -- Where `args` returns, it gives one value for each name of its list. Value `i` belongs to the word
  -- that stands behind those of the arguments before it, where a double and a 64-bit argument take two
  -- words and any other takes one. Word `k` of the area is the general register r3 + k for the first
  -- eight, and the 32-bit number at r1 + 24 + 4k from the ninth on. A double is the floating-point
  -- register behind those of the doubles before it, f1 for the first. A 64-bit value has its high word
  -- first, an 8-bit or a 16-bit one is the low part of its word, and a signed one is two's complement,
  -- for a 64-bit one where its two words make less than 2^64.
  pub args-Placed :
      (spec : List ArgType) {values : List (Value F)}
      → args u m reg freg spec ≡ ok values
      → (length values ≡ length spec)
        × ((i : ℕ) (item : ArgType) → get_elem? spec i ≡ some item → Placed spec 0 0 values i item)
  unfolding args
  args-Placed spec q =
      args_from-Placed spec 0 0
        (passed (any_other spec) unsupported (args_from u m reg freg spec 0 0) q)

  word_in_register : (word : ℕ) → word < 8 → (n : ℕ) × (word_at u m reg freg word ≡ ok n)
  word_in_register word low =
      let in_area : ltb word 8 ≡ true = ground arith in
      let a_register : ltb 31 (3 + word) ≡ false = ground arith in
      rw (in_area, a_register) (reg (3 + word) % 0x1_0000_0000, refl)

  wide_in_registers : (word : ℕ) → word + 2 ≤ 8 → (n : ℕ) × (wide_at u m reg freg word ≡ ok n)
  wide_in_registers word low =
      let (high, q) = word_in_register word (omega arith) in
      let (least, q1) = word_in_register (word + 1) (omega arith) in
      rw (q, q1) (high * 0x1_0000_0000 + least, refl)

  value_in_registers :
      (item : ArgType) (word index : ℕ)
      → is_other item ≡ false
      → word + width item ≤ 8
      → index + floats item ≤ 31
      → (v : Value F) × (value_at u m reg freg item word index ≡ ok v)
  unfolding value_at
  value_in_registers double word index known low few =
      let a_register : ltb 31 (1 + index) ≡ false = ground arith in
      rw a_register (float (freg (1 + index)), refl)
  value_in_registers unsigned_wide word index known low few =
      let (n, q) = wide_in_registers word low in rw q (int (pos n), refl)
  value_in_registers wide word index known low few =
      let (n, q) = wide_in_registers word low in rw q (int (signed64 n), refl)
  value_in_registers octet word index known low few =
      let (n, q) = word_in_register word (omega arith) in rw q (int (pos (n % 0x100)), refl)
  value_in_registers unsigned_short word index known low few =
      let (n, q) = word_in_register word (omega arith) in rw q (int (pos (n % 0x1_0000)), refl)
  value_in_registers short word index known low few =
      let (n, q) = word_in_register word (omega arith) in rw q (int (signed16 (n % 0x1_0000)), refl)
  value_in_registers long word index known low few =
      let (n, q) = word_in_register word (omega arith) in rw q (int (pos n), refl)
  value_in_registers ptr word index known low few =
      let (n, q) = word_in_register word (omega arith) in rw q (int (pos n), refl)
  value_in_registers (other _) word index known low few = absurd cc

  args_from_registers :
      (spec : List ArgType) (word index : ℕ)
      → any_other spec ≡ false
      → word + words_of spec ≤ 8
      → index + doubles_of spec ≤ 31
      → (values : List (Value F)) × (args_from u m reg freg spec word index ≡ ok values)
  unfolding args_from
  args_from_registers [] word index known low few = ([], refl)
  args_from_registers (item ∷ spec) word index known low few =
      let size = width_lem item in
      let doubles = doubles_lem item spec in
      let (v, q) = value_in_registers item word index (ground arith) (omega arith) (omega arith) in
      let (vs, q1) =
        args_from_registers spec (word + width item) (index + floats item) (ground arith)
          (omega arith) (omega arith) in
      rw (q, q1) (v ∷ vs, refl)

  -- A list of known names whose arguments take at most eight words, and at most 31 of which are
  -- doubles, is read without an error, whatever the memory is: no stack word is touched.
  pub args-in_registers :
      (spec : List ArgType)
      → any_other spec ≡ false
      → words_of spec ≤ 8
      → doubles_of spec ≤ 31
      → (values : List (Value F)) × (args u m reg freg spec ≡ ok values)
  unfolding args
  args-in_registers spec known low few =
      rw known (args_from_registers spec 0 0 known (omega arith) (omega arith))
