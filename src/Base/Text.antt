-- ===== src/Base/Text.antt =====
-- Python's operations on texts that the command line uses, on the native `String`.
use Prim.Native.String.{String}
use Prim.Native.Char.{Char, code}
use Prim.Native.Nat.{ℕ, zero, suc}
use mathlib.Core.Bool.{Bool, true, false, ◌&&◌}
use mathlib.Core.Option.{Option, none, some}
use mathlib.Core.List.{List, [], ◌∷◌}
use text.Mathlib.Text.{◌==◌}
use cwhost.Base.Tests.{if◌then◌else◌}
use cwhost.Base.Tests as Tests
use cwhost.Base.Int.{ℤ}

-- value.startswith(prefix)
abbrev pub starts_with : String → String → Bool
starts_with value String.[] = true
starts_with String.[] (String.◌∷◌ p prefix) = false
starts_with (String.◌∷◌ c value) (String.◌∷◌ p prefix) =
    Tests.◌==◌ (code c) (code p) && starts_with value prefix

-- value[n:]
abbrev pub from : ℕ → String → String
from zero value = value
from (suc n) String.[] = String.[]
from (suc n) (String.◌∷◌ c value) = from n value

-- what stands behind the first `mark`, as value.split(mark, 1)[1] has it
abbrev pub behind : ℕ → String → Option String
behind mark String.[] = none
behind mark (String.◌∷◌ c value) =
    let later = behind mark value in if Tests.◌==◌ (code c) mark then some value else later

-- a character in front of the first part
abbrev pub extend : Char → List String → List String
extend c [] = String.◌∷◌ c String.[] ∷ []
extend c (part ∷ parts) = String.◌∷◌ c part ∷ parts

-- value.split(mark)
abbrev pub split : ℕ → String → List String
split mark String.[] = String.[] ∷ []
split mark (String.◌∷◌ c value) =
    let rest = split mark value in
    if Tests.◌==◌ (code c) mark then String.[] ∷ rest else extend c rest

-- a dictionary literal with texts for keys
abbrev pub find {ℓ} : {A : Type ℓ} → String → List (String × A) → Option A
find key [] = none
find key ((other, value) ∷ rest) =
    let later = find key rest in if other == key then some value else later

-- What the program takes from Unicode's and MacRoman's tables and from `int`: str.casefold, int(text)
-- with `none` for its ValueError, str.encode("mac_roman") with `none` for its UnicodeEncodeError.
pub record Tables : Type 0 where
  pub casefold : String → String
  pub int_of : String → Option ℤ
  pub mac_roman : String → Option (List ℕ)
