-- ===== src/Logging/Format/Redaction.antt =====
-- Sensitive attributes in the text of an event, src/core/logging/json_event_formatter.cpp.
use sasd_gatehold.Prelude.{◌≡◌, refl, inl, inr, Bool, true, false, List, [], ◌∷◌, arith, Bool-cases}
use sasd_gatehold.Text.{Bytes}
use sasd_gatehold.Logging.Event.{Event}
use sasd_gatehold.Logging.Format.Defs.{is_sensitive_key, attribute_fields, format}

-- Two attribute lists that differ at most in the values of sensitive keys.
abbrev pub SameButSecrets : List (Bytes × Bytes) → List (Bytes × Bytes) → Type 0
SameButSecrets [] [] = Unit
SameButSecrets ((k, v) ∷ m) ((j, u) ∷ n) =
    (k ≡ j) × (is_sensitive_key k ≡ false → v ≡ u) × SameButSecrets m n
SameButSecrets _ _ = ⊥

attribute_fields_lem :
    (first : Bool) (m n : List (Bytes × Bytes))
    → SameButSecrets m n
    → attribute_fields first m ≡ attribute_fields first n
unfolding attribute_fields
attribute_fields_lem first [] [] h = refl
attribute_fields_lem first [] (x ∷ n) h = absurd h
attribute_fields_lem first (x ∷ m) [] h = absurd h
attribute_fields_lem first ((k, v) ∷ m) ((j, u) ∷ n) h = elim (Bool-cases (is_sensitive_key k)) [
  | inl e ↦ ground (arith, attribute_fields_lem false m n h.2)
  | inr e ↦ ground (arith, attribute_fields_lem false m n h.2)
]

-- Events that differ only in the values of attributes with sensitive keys have the same text: the
-- audit trail tells nothing about those values.
pub format_redacts :
    (e : Event) (attributes : List (Bytes × Bytes))
    → SameButSecrets e.attributes attributes
    → format (record e { attributes = attributes }) ≡ format e
unfolding format
format_redacts e attributes h = rw (attribute_fields_lem true e.attributes attributes h)
