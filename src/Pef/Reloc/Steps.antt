-- ===== src/Pef/Reloc/Steps.antt =====
-- Runs of the interpreter that raise no error but its own, and its steps among them.
use cwhost.Base.{
  ℕ, zero, suc, ◌+◌, ◌≡◌, refl, Option, none, some, length, length-drop, drop, ltb, arith,
  Bool-cases, inl, inr,
}
use cwhost.Base.Int.{ℤ}
use cwhost.Base.Result.{Result, ok, err, or_raise}
use cwhost.Base.Action.{after, lift, ◌>>=◌, ◌>>◌}
use cwhost.Base.Bytes.{head_u32-some}
use cwhost.Pef.Reloc.{
  State, Run, Kind, RelocError, index_error, out_of_fuel, lg_repeat, set_position, lg_import,
  lg_section, add_word, times, add_c, add_d, c_step, d_step, tv8_step, decode, advance,
}

-- neither Python's IndexError or struct.error nor the end of the fuel
abbrev pub IsFine : {A : Type 0} → Result RelocError A → Type 0
IsFine (err index_error) = ⊥
IsFine (err out_of_fuel) = ⊥
IsFine _ = Unit {0}

abbrev pub IsSafe : {A : Type 0} → Run A → Type 0
IsSafe m = (s : State) → IsFine (m s).0

safe_after :
    {A B : Type 0} (r : Result RelocError A × State) (f : A → Run B)
    → IsFine r.0
    → ((a : A) → r.0 ≡ ok a → IsSafe (f a))
    → IsFine (after r f).0
safe_after (ok a, s) f h k = k a refl s
safe_after (err index_error, s) f h k = elim h [ ]
safe_after (err out_of_fuel, s) f h k = elim h [ ]
safe_after (err _, s) f h k = tt

pub IsSafe-bind :
    {A B : Type 0} (m : Run A) (f : A → Run B)
    → IsSafe m
    → ((a : A) → IsSafe (f a))
    → IsSafe (m >>= f)
IsSafe-bind m f h k s = safe_after (m s) f (h s) (λ a _. k a)

pub IsSafe-seq : (m k : Run (Unit {0})) → IsSafe m → IsSafe k → IsSafe (m >> k)
IsSafe-seq m k h h' = IsSafe-bind m (λ _. k) h (λ _. h')

pub IsSafe-times : (n : ℕ) (body : Run (Unit {0})) → IsSafe body → IsSafe (times n body)
unfolding times
IsSafe-times zero body h = λ s. tt
IsSafe-times (suc n) body h = IsSafe-seq body (times n body) h (IsSafe-times n body h)

pub IsSafe-add_word : (v : ℤ) → IsSafe (add_word v)
unfolding add_word
IsSafe-add_word v s = elim (Bool-cases (ltb (length s.section) (s.position + 4))) [
  | inl out ↦ rw out tt
  | inr inside ↦
      let x =
        head_u32-some (drop s.position s.section)
          (ground (arith, length-drop {0} s.position s.section)) in
      rw inside (rw x.1 tt)
]

pub IsSafe-advance : (n : ℕ) → IsSafe (advance n)
IsSafe-advance n s = tt

IsSafe-add_c : IsSafe add_c
IsSafe-add_c s = IsSafe-add_word s.current_c s

pub IsSafe-add_d : IsSafe add_d
IsSafe-add_d s = IsSafe-add_word s.current_d s

pub IsSafe-c_step : IsSafe c_step
IsSafe-c_step = IsSafe-seq add_c (advance 4) IsSafe-add_c (IsSafe-advance 4)

pub IsSafe-d_step : IsSafe d_step
IsSafe-d_step = IsSafe-seq add_d (advance 4) IsSafe-add_d (IsSafe-advance 4)

pub IsSafe-tv8_step : IsSafe tv8_step
IsSafe-tv8_step = IsSafe-seq c_step d_step IsSafe-c_step IsSafe-d_step

-- the number of words of an instruction
abbrev pub arity : Kind → ℕ
arity lg_repeat = 2
arity set_position = 2
arity lg_import = 2
arity lg_section = 2
arity _ = 1

abbrev pub Decoded : Option (Kind × ℕ) → Type 0
Decoded none = Unit {0}
Decoded (some (k, n)) = n ≡ arity k

decode-arity : (word n : ℕ) (k : Kind) → decode word ≡ some (k, n) → n ≡ arity k
unfolding decode
decode-arity word n k e = ground arith

Decoded-of :
    (o : Option (Kind × ℕ)) → ((n : ℕ) (k : Kind) → o ≡ some (k, n) → n ≡ arity k) → Decoded o
Decoded-of none h = tt
Decoded-of (some (k, n)) h = h n k refl

pub decode-Decoded : (word : ℕ) → Decoded (decode word)
decode-Decoded word = Decoded-of (decode word) (decode-arity word)

pub IsSafe-lookup :
    {A B : Type 0} (o : Option A) (e : RelocError) (f : A → Run B)
    → IsFine {A = A} (err e)
    → ((a : A) → IsSafe (f a))
    → IsSafe (lift (or_raise o e) >>= f)
IsSafe-lookup none e f h k = IsSafe-bind (lift (err e)) f (λ s. h) k
IsSafe-lookup (some a) e f h k = k a
