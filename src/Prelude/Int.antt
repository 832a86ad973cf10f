-- ===== src/Prelude/Int.antt =====
-- Signed integers over the native numbers: `negsuc n` is -(n + 1).
use Prim.Native.Nat.{ℕ, compare, Ordering}
use mathlib.Core.Bool.{Bool, true, false}

pub data ℤ : Type 0 where
  pos : ℕ → ℤ
  negsuc : ℕ → ℤ

abbrev pub is_int : ℤ → ℕ → Bool
is_int (pos n) k = elim (compare n k) [ Ordering.eq ↦ true | _ ↦ false ]
is_int (negsuc _) k = false
