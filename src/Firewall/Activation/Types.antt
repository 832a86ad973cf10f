-- ===== src/Firewall/Activation/Types.antt =====
-- The data of the activation service, include/gatehold/firewall/activation_service.hpp. The
-- authorizer, the confirmation gate and the probes are interfaces that other programs implement:
-- `none` is an exception, and the number in front is the tick of the call.
use sasd_gatehold.Prelude.{ℕ, Bool, true, false, Option, none, List, []}
use sasd_gatehold.Text.{Bytes}
use sasd_gatehold.Firewall.Transaction.Store.{ActivationTransactionResult}
use sasd_gatehold.Firewall.Pfctl.Run.{NativeValidationResult, PfctlLoadResult}

pub data AuthorizationStatus : Type 0 where
  authorized denied unavailable : AuthorizationStatus

pub record AuthorizationResult : Type 0 where
  pub status : AuthorizationStatus
  pub decision_id : Bytes
  pub message : Bytes

abbrev pub authorization_ok : AuthorizationResult → Bool
authorization_ok r = elim r.status [ authorized ↦ true | _ ↦ false ]

pub data HealthProbeStatus : Type 0 where
  healthy unhealthy timed_out execution_error : HealthProbeStatus

pub record HealthProbeResult : Type 0 where
  pub status : HealthProbeStatus
  pub message : Bytes

abbrev pub probe_ok : HealthProbeResult → Bool
probe_ok r = elim r.status [ healthy ↦ true | _ ↦ false ]

pub record HealthProbe : Type 0 where
  pub id : Bytes
  pub run : ℕ → ℕ → Option HealthProbeResult

pub data ConfirmationStatus : Type 0 where
  confirmed rejected timed_out unavailable : ConfirmationStatus

pub record ConfirmationResult : Type 0 where
  pub status : ConfirmationStatus
  pub confirmation_id : Bytes
  pub message : Bytes

abbrev pub confirmation_ok : ConfirmationResult → Bool
confirmation_ok r = elim r.status [ confirmed ↦ true | _ ↦ false ]

pub data ActivationStatus : Type 0 where
  committed invalid_request authorization_denied authorization_error : ActivationStatus
  last_known_good_unavailable target_unavailable native_revalidation_failed : ActivationStatus
  activation_failed verification_failed_rolled_back confirmation_failed_rolled_back :
      ActivationStatus
  commit_failed_rolled_back transaction_conflict transaction_store_failed : ActivationStatus
  committed_with_warning committed_cleanup_pending audit_failed : ActivationStatus
  audit_failed_rolled_back rollback_failed : ActivationStatus

pub record ActivationRequest : Type 0 where
  pub operation_id : Bytes
  pub revision : ℕ
  pub authorization_reference : Bytes
  pub probe_timeout : ℕ
  pub confirmation_timeout : ℕ

-- `journaled_events` stands beside the result in the run (`Flow.Run.journaled`).
pub record ActivationResult : Type 0 where
  pub status : ActivationStatus
  pub event_id : Bytes
  pub message : Bytes
  pub rollback_revision : Option ℕ
  pub authorization : Option AuthorizationResult
  pub native_validation : Option NativeValidationResult
  pub activation : Option PfctlLoadResult
  pub rollback : Option PfctlLoadResult
  pub probe_results : List HealthProbeResult
  pub confirmation : Option ConfirmationResult
  pub transaction : Option ActivationTransactionResult
  pub rollback_performed : Bool

abbrev pub initial_result : ActivationResult
initial_result = record {
  status = invalid_request;
  event_id = [];
  message = [];
  rollback_revision = none;
  authorization = none;
  native_validation = none;
  activation = none;
  rollback = none;
  probe_results = [];
  confirmation = none;
  transaction = none;
  rollback_performed = false;
}

-- `ActivationResult::ok`.
abbrev pub activation_ok : ActivationStatus → Bool
activation_ok committed = true
activation_ok committed_with_warning = true
activation_ok committed_cleanup_pending = true
activation_ok _ = false

-- What the service is constructed with, beside the stores.
pub record Service : Type 0 where
  pub authorize : ℕ → Bytes → ℕ → Bytes → Option AuthorizationResult
  pub await_confirmation : ℕ → Bytes → ℕ → ℕ → Option ConfirmationResult
  pub probes : List HealthProbe
