-- ===== src/Firewall/Transaction/Record.antt =====
-- The pending activation and its five-line text, src/core/firewall/activation_transaction_store.cpp.
use sasd_gatehold.Prelude.{
  ℕ, ◌+◌, Bool, not, ◌&&◌, Option, none, some, [], ◌∷◌, ◌++◌, ltb, ◌==◌, if◌then◌else◌, is_empty,
}
use sasd_gatehold.Prelude.Optional.{◌>>=◌, require}
use sasd_gatehold.Text.{strip_prefix, Bytes, text, eq_bytes, valid_identifier}
use sasd_gatehold.Text.Decimal.{max_u64, to_string, from_chars}

pub data ActivationPhase : Type 0 where
  prepared_for_load target_loaded verified awaiting_confirmation committing committed :
      ActivationPhase

-- static_cast<int>(phase)
abbrev pub phase_index : ActivationPhase → ℕ
phase_index prepared_for_load = 0
phase_index target_loaded = 1
phase_index verified = 2
phase_index awaiting_confirmation = 3
phase_index committing = 4
phase_index committed = 5

pub record PendingActivation : Type 0 where
  pub operation_id : Bytes
  pub target_revision : ℕ
  pub rollback_revision : ℕ
  pub phase : ActivationPhase

unfoldable pub valid_transaction : PendingActivation → Bool
valid_transaction t =
    valid_identifier t.operation_id
    && ltb 0 t.target_revision
    && ltb 0 t.rollback_revision
    && not (t.target_revision == t.rollback_revision)

unfoldable pub phase_text : ActivationPhase → Bytes
phase_text prepared_for_load = text "prepared_for_load"
phase_text target_loaded = text "target_loaded"
phase_text verified = text "verified"
phase_text awaiting_confirmation = text "awaiting_confirmation"
phase_text committing = text "committing"
phase_text committed = text "committed"

unfoldable pub parse_phase : Bytes → Option ActivationPhase
parse_phase value =
    if eq_bytes value (text "prepared_for_load")
    then some prepared_for_load
    else if eq_bytes value (text "target_loaded")
    then some target_loaded
    else if eq_bytes value (text "verified")
    then some verified
    else if eq_bytes value (text "awaiting_confirmation")
    then some awaiting_confirmation
    else if eq_bytes value (text "committing")
    then some committing
    else if eq_bytes value (text "committed")
    then some committed
    else none

unfoldable pub valid_transition : ActivationPhase → ActivationPhase → Bool
valid_transition current next = phase_index next == phase_index current + 1

abbrev pub format_header : Bytes
format_header = text "gatehold-activation-v1"

unfoldable pub line : Bytes → Bytes → Bytes
line s rest = s ++ b'\n' ∷ rest

-- Appended from the right, so that each line stands before its rest.
unfoldable pub serialize : PendingActivation → Bytes
serialize t = line format_header (
    line (text "operation_id=" ++ t.operation_id) (
      line (text "target_revision=" ++ to_string t.target_revision) (
        line (text "rollback_revision=" ++ to_string t.rollback_revision)
          (line (text "phase=" ++ phase_text t.phase) []))))

-- `content.find('\n', position)`: the line, and what stands behind its line feed.
unfoldable pub take_line : Bytes → Option (Bytes × Bytes)
take_line [] = none
take_line (c ∷ s) =
    if c == b'\n'
    then some ([], s)
    else elim (take_line s) [ none ↦ none | some (l, rest) ↦ some (c ∷ l, rest) ]

unfoldable pub parse_revision : Bytes → Option ℕ
parse_revision s = do r ← from_chars max_u64 s; require (ltb 0 r) >>= λ _. some r

-- The fields of the five lines.
unfoldable pub parse_fields : Bytes → Bytes → Bytes → Bytes → Option PendingActivation
parse_fields operation target rollback phase_line = do
  id ← strip_prefix (text "operation_id=") operation
  target_digits ← strip_prefix (text "target_revision=") target
  rollback_digits ← strip_prefix (text "rollback_revision=") rollback
  phase_name ← strip_prefix (text "phase=") phase_line
  t ← parse_revision target_digits
  r ← parse_revision rollback_digits
  p ← parse_phase phase_name
  let transaction : PendingActivation = record {
    operation_id = id;
    target_revision = t;
    rollback_revision = r;
    phase = p;
  }
  if valid_transaction transaction then some transaction else none

unfoldable pub parse : Bytes → Option PendingActivation
parse content = do
  (header, rest) ← take_line content
  (operation, rest) ← take_line rest
  (target, rest) ← take_line rest
  (rollback, rest) ← take_line rest
  (phase_line, rest) ← take_line rest
  if is_empty rest && eq_bytes header format_header
      then parse_fields operation target rollback phase_line
      else none
