-- ===== src/Firewall/Activation/Events.antt =====
-- The events of the activation service, src/core/firewall/activation_service.cpp.
use sasd_gatehold.Prelude.{
  ℕ, Bool, true, false, none, some, [], ◌∷◌, ◌++◌, ◌+◌, if◌then◌else◌, String,
}
use sasd_gatehold.Prelude.Int.{ℤ, pos, negsuc}
use sasd_gatehold.Text.{Bytes, text}
use sasd_gatehold.Text.Decimal.{to_string}
use sasd_gatehold.Logging.Event.{Severity, info, warning, error, Event, with_attribute}
use sasd_gatehold.Firewall.Transaction.Record.{phase_text}
use sasd_gatehold.Firewall.Transaction.Store.{ActivationTransactionResult, transaction_ok}
use sasd_gatehold.Firewall.Pfctl.Run.{
  NativeValidationResult, NativeValidationStatus, valid, PfctlLoadResult, PfctlLoadStatus, loaded,
  unsafe_revision, unsafe_candidate, validation_ok, load_ok,
}
use sasd_gatehold.Firewall.Activation.Types.{
  AuthorizationStatus, authorized, denied, HealthProbeStatus, healthy, unhealthy,
  ConfirmationStatus, confirmed,
}

unfoldable pub activation_event :
    Bytes → Severity → Bytes → Bytes → String → String → Bytes → ℕ → Event
activation_event t severity id operation action outcome message revision = record {
  timestamp = t;
  severity = severity;
  event_id = id;
  component = text "pf-activation-service";
  operation_id = operation;
  action = text action;
  outcome = text outcome;
  message = message;
  attributes = (text "revision", to_string revision) ∷ [];
}

-- `std::to_string` of an `int`.
abbrev int_text : ℤ → Bytes
int_text (pos n) = to_string n
int_text (negsuc n) = text "-" ++ to_string (n + 1)

abbrev bool_text : Bool → Bytes
bool_text true = text "true"
bool_text false = text "false"

abbrev load_outcome : PfctlLoadStatus → String
load_outcome loaded = "succeeded"
load_outcome PfctlLoadStatus.rejected = "rejected"
load_outcome unsafe_revision = "rejected"
load_outcome PfctlLoadStatus.timed_out = "timed_out"
load_outcome PfctlLoadStatus.execution_error = "failed"

unfoldable pub load_event : PfctlLoadResult → Bytes → Bytes → ℕ → String → Event
load_event load t operation revision action =
    with_attribute (text "output_truncated") (bool_text load.output_truncated) (
      with_attribute (text "exit_code") (int_text load.exit_code) (
        activation_event t (if load_ok load then info else error) load.event_id operation action
          (load_outcome load.status) load.message revision))

unfoldable pub transaction_event : ActivationTransactionResult → Bytes → Bytes → ℕ → String → Event
transaction_event r t operation revision action =
    let event =
      activation_event t (if transaction_ok r.status then info else error) r.event_id operation
        action (if transaction_ok r.status then "succeeded" else "failed") r.message revision in
    elim r.transaction [
      | none ↦ event
      | some p ↦
          with_attribute (text "rollback_revision") (to_string p.rollback_revision)
            (with_attribute (text "phase") (phase_text p.phase) event)
    ]

abbrev validation_outcome : NativeValidationStatus → String
validation_outcome valid = "succeeded"
validation_outcome NativeValidationStatus.rejected = "rejected"
validation_outcome unsafe_candidate = "rejected"
validation_outcome NativeValidationStatus.timed_out = "timed_out"
validation_outcome NativeValidationStatus.execution_error = "failed"

-- native_validator.cpp
unfoldable pub make_validation_event : NativeValidationResult → Bytes → Bytes → ℕ → Event
make_validation_event r t operation revision = record {
  timestamp = t;
  severity = if validation_ok r then info else warning;
  event_id = r.event_id;
  component = text "native-pf-validator";
  operation_id = operation;
  action = text "pf.ruleset.validate";
  outcome = text (validation_outcome r.status);
  message = r.message;
  attributes =
      (text "exit_code", int_text r.exit_code)
      ∷ (text "output_truncated", bool_text r.output_truncated)
      ∷ (text "revision", to_string revision)
      ∷ [];
}

abbrev pub authorization_event_id : AuthorizationStatus → String
authorization_event_id authorized = "GH-AUTH-0001"
authorization_event_id denied = "GH-AUTH-1001"
authorization_event_id AuthorizationStatus.unavailable = "GH-AUTH-2001"

abbrev pub probe_event_id : HealthProbeStatus → String
probe_event_id healthy = "GH-PROBE-0001"
probe_event_id unhealthy = "GH-PROBE-1001"
probe_event_id HealthProbeStatus.timed_out = "GH-PROBE-2001"
probe_event_id HealthProbeStatus.execution_error = "GH-PROBE-2002"

abbrev pub confirmation_event_id : ConfirmationStatus → String
confirmation_event_id confirmed = "GH-CONF-0001"
confirmation_event_id ConfirmationStatus.rejected = "GH-CONF-1001"
confirmation_event_id ConfirmationStatus.timed_out = "GH-CONF-1002"
confirmation_event_id ConfirmationStatus.unavailable = "GH-CONF-2001"
