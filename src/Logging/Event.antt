-- ===== src/Logging/Event.antt =====
-- `logging::Event`, include/gatehold/logging/event.hpp. The attributes, a `std::map`, are the list of
-- its pairs in the order of the keys.
use sasd_gatehold.Prelude.{Bool, true, false, List, [], ◌∷◌, ltb, ◌==◌, if◌then◌else◌}
use sasd_gatehold.Text.{Bytes, eq_bytes}

pub data Severity : Type 0 where
  debug info warning error critical : Severity

pub record Event : Type 0 where
  pub timestamp : Bytes
  pub severity : Severity
  pub event_id : Bytes
  pub component : Bytes
  pub operation_id : Bytes
  pub action : Bytes
  pub outcome : Bytes
  pub message : Bytes
  pub attributes : List (Bytes × Bytes)

-- The order of `std::string`.
pub less : Bytes → Bytes → Bool
less [] [] = false
less [] (y ∷ ys) = true
less (x ∷ xs) [] = false
less (x ∷ xs) (y ∷ ys) = if x == y then less xs ys else ltb x y

-- `std::map::emplace`: a key that is there keeps its value.
unfoldable pub emplace : Bytes → Bytes → List (Bytes × Bytes) → List (Bytes × Bytes)
unfolding less
emplace k v [] = (k, v) ∷ []
emplace k v ((j, u) ∷ m) =
    if eq_bytes k j
    then (j, u) ∷ m
    else if less k j
    then (k, v) ∷ (j, u) ∷ m
    else (j, u) ∷ emplace k v m

abbrev pub with_attribute : Bytes → Bytes → Event → Event
with_attribute k v e = let m = e.attributes in record e { attributes = emplace k v m }
