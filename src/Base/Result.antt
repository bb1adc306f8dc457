-- ===== src/Base/Result.antt =====
-- A value or the exception that was raised. Each component has an exception type of its own.
use mathlib.Core.Path.{◌≡◌, refl}
use mathlib.Core.Logic.{◌≢◌}
use mathlib.Core.Bool.{Bool, true, false}
use mathlib.Core.Option.{Option, none, some}

pub data Result (E A : Type 0) : Type 0 where
  ok : A → Result E A
  err : E → Result E A

infixl 5 ◌>>=◌ ◌>>◌
abbrev pub ◌>>=◌ : {E A B : Type 0} → Result E A → (A → Result E B) → Result E B
ok value >>= next = next value
err raised >>= _ = err raised

abbrev pub ◌>>◌ : {E B : Type 0} → Result E (Unit {0}) → Result E B → Result E B
first >> second = first >>= λ _. second

-- `if test: raise e`
abbrev pub raise_if : {E : Type 0} → Bool → E → Result E (Unit {0})
raise_if true e = err e
raise_if false e = ok tt

abbrev pub or_raise : {E A : Type 0} → Option A → E → Result E A
or_raise none e = err e
or_raise (some a) e = ok a

pub >>=-eq-ok :
    {E A B : Type 0} (step : Result E A) (next : A → Result E B) {b : B}
    → (step >>= next) ≡ ok b
    → (value : A) × (step ≡ ok value) × (next value ≡ ok b)
>>=-eq-ok (ok value) next ends = (value, refl, ends)
>>=-eq-ok (err raised) next ends = cc

-- a chain never raises `e` when none of its steps does
pub >>=-ne-err :
    {E A B : Type 0} {e : E} (m : Result E A) (f : A → Result E B)
    → m ≢ err e
    → ((a : A) → f a ≢ err e)
    → (m >>= f) ≢ err e
>>=-ne-err (ok a) f h k = k a
>>=-ne-err (err d) f h k = λ q. h cc

pub or_raise-eq-ok :
    {E A : Type 0} (o : Option A) (e : E) {a : A} → or_raise o e ≡ ok a → o ≡ some a
or_raise-eq-ok none e h = cc
or_raise-eq-ok (some b) e h = cc

-- no exception was raised
abbrev pub IsOk : {E A : Type 0} → Result E A → Type 0
IsOk (ok _) = Unit {0}
IsOk (err _) = ⊥
