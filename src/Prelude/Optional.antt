-- ===== src/Prelude/Optional.antt =====
-- Chains of steps that may fail, as `do` blocks.
use mathlib.Core.Bool.{Bool, true, false}
use mathlib.Core.Option.{Option, none, some}

infixl 5 ◌>>=◌
abbrev pub ◌>>=◌ : {A B : Type 0} → Option A → (A → Option B) → Option B
none >>= f = none
some a >>= f = f a

abbrev pub require : Bool → Option (Unit {0})
require true = some tt
require false = none
