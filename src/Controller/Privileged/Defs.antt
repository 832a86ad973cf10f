-- ===== src/Controller/Privileged/Defs.antt =====
-- `PrivilegedPfController`, src/core/controller/privileged_pf_controller.cpp and
-- include/gatehold/controller/privileged_pf_controller.hpp. Each operation holds the lifecycle mutex,
-- so it is one action; it takes the state, and the `state` of its result is the new one.
use sasd_gatehold.Prelude.{
  Bool, true, false, not, ◌||◌, Option, none, some, [], ◌∷◌, String, if◌then◌else◌,
}
use sasd_gatehold.Text.{Bytes, text}
use sasd_gatehold.Host.{Os, M, ◌>>=◌, pure, timestamp}
use sasd_gatehold.Logging.Event.{Severity, info, warning, error, critical}
use sasd_gatehold.Logging.Journal
use sasd_gatehold.Logging.Journal.{journal_ok}
use sasd_gatehold.Firewall.Activation.Types as Types
use sasd_gatehold.Firewall.Activation.Types.{
  ActivationStatus, ActivationRequest, ActivationResult, Service, activation_ok,
}
use sasd_gatehold.Firewall.Activation.Service as Activation
use sasd_gatehold.Firewall.Activation.Recovery.{
  ActivationRecoveryStatus, audit_failed_recovered, ActivationRecoveryResult, recovery_ok,
  recover_pending,
}

pub data ControllerState : Type 0 where
  created starting ready read_only blocked : ControllerState

pub data ControllerStartupStatus : Type 0 where
  ready read_only blocked : ControllerStartupStatus

pub record ControllerStartupResult : Type 0 where
  pub status : ControllerStartupStatus
  pub state : ControllerState
  pub event_id : Bytes
  pub message : Bytes
  pub recovery : Option ActivationRecoveryResult

pub data ControllerDispatchStatus : Type 0 where
  completed controller_not_ready : ControllerDispatchStatus

pub record ControllerActivationResult : Type 0 where
  pub status : ControllerDispatchStatus
  pub state : ControllerState
  pub event_id : Bytes
  pub message : Bytes
  pub activation : Option ActivationResult

abbrev pub state_text : ControllerState → String
state_text ControllerState.created = "created"
state_text ControllerState.starting = "starting"
state_text ControllerState.ready = "ready"
state_text ControllerState.read_only = "read_only"
state_text ControllerState.blocked = "blocked"

abbrev pub requires_read_only : ActivationStatus → Bool
requires_read_only Types.transaction_conflict = true
requires_read_only Types.transaction_store_failed = true
requires_read_only Types.committed_with_warning = true
requires_read_only Types.committed_cleanup_pending = true
requires_read_only Types.audit_failed = true
requires_read_only Types.audit_failed_rolled_back = true
requires_read_only _ = false

abbrev pub is_rollback_failed : ActivationStatus → Bool
is_rollback_failed Types.rollback_failed = true
is_rollback_failed _ = false

abbrev startup_status : ControllerState → ControllerStartupStatus
startup_status ControllerState.ready = ControllerStartupStatus.ready
startup_status ControllerState.read_only = ControllerStartupStatus.read_only
startup_status _ = ControllerStartupStatus.blocked

abbrev pub is_ready : ControllerState → Bool
is_ready ControllerState.ready = true
is_ready _ = false

abbrev pub is_created : ControllerState → Bool
is_created ControllerState.created = true
is_created _ = false

abbrev is_audit_failed : ActivationRecoveryStatus → Bool
is_audit_failed audit_failed_recovered = true
is_audit_failed _ = false

-- `ControllerStartupResult::accepts_activations`.
abbrev pub accepts_activations : ControllerStartupResult → Bool
accepts_activations r = elim r.status [
  | ControllerStartupStatus.ready ↦ is_ready r.state
  | _ ↦ false
]

-- `ControllerActivationResult::ok`.
abbrev pub dispatch_ok : ControllerActivationResult → Bool
dispatch_ok r = elim r.status [
  | controller_not_ready ↦ false
  | completed ↦ elim r.activation [ none ↦ false | some a ↦ activation_ok a.status ]
]

abbrev startup :
    ControllerStartupStatus
    → ControllerState
    → String
    → String
    → Option ActivationRecoveryResult
    → ControllerStartupResult
startup status state id words recovery = record {
  status = status;
  state = state;
  event_id = text id;
  message = text words;
  recovery = recovery;
}

abbrev pub startup_operation : Bytes
startup_operation = text "controller-startup"

module _ (os : Os) where
  -- Append a `controller_event`; whether it was appended.
  unfoldable pub note :
      Severity → String → Bytes → String → String → String → ControllerState → M Bool
  note severity id operation action outcome words state = do
    t ← timestamp os
    r ← Journal.append os (record {
      timestamp = t;
      severity = severity;
      event_id = text id;
      component = text "privileged-pf-controller";
      operation_id = operation;
      action = text action;
      outcome = text outcome;
      message = text words;
      attributes = (text "controller_state", text (state_text state)) ∷ [];
    })
    pure (journal_ok r)

  -- From the result of the recovery on.
  unfoldable pub finish_start : Bool → ActivationRecoveryResult → M ControllerStartupResult
  finish_start audited recovery =
      if not (recovery_ok recovery.status)
      then (do
        _ ←
            note critical "GH-CTL-2001" startup_operation "controller.start" "blocked"
              "Controller blocked because pending activation recovery failed."
              ControllerState.blocked
        pure (
            startup ControllerStartupStatus.blocked ControllerState.blocked "GH-CTL-2001"
              "Controller blocked because pending activation recovery failed." (some recovery)))
      else if not audited || is_audit_failed recovery.status
      then (do
        _ ←
            note error "GH-CTL-2002" startup_operation "controller.start" "read_only"
              "Recovery completed, but audit durability is unavailable." ControllerState.read_only
        pure (
            startup ControllerStartupStatus.read_only ControllerState.read_only "GH-CTL-2002"
              "Recovery completed, but audit durability is unavailable." (some recovery)))
      else do
        noted ←
            note info "GH-CTL-0002" startup_operation "controller.start" "ready"
              "Controller recovery completed and activation dispatch is enabled."
              ControllerState.ready
        pure (
            if noted
            then startup ControllerStartupStatus.ready ControllerState.ready "GH-CTL-0002"
                "Controller is ready to dispatch activation requests." (some recovery)
            else startup ControllerStartupStatus.read_only ControllerState.read_only "GH-CTL-2002"
                "Recovery completed, but readiness could not be audited durably." (some recovery))

  abbrev recover : M ActivationRecoveryResult
  recover w = let s = recover_pending os w in (s.result, s.world)

  unfoldable pub start : ControllerState → M ControllerStartupResult
  start state =
      if not (is_created state)
      then pure (
          startup (startup_status state) state "GH-CTL-1002"
            "Controller startup has already completed or is blocked." none)
      else do
        audited ←
            note info "GH-CTL-0001" startup_operation "controller.start" "started"
              "Controller startup recovery began." ControllerState.starting
        recovery ← recover
        finish_start audited recovery

  module _ (svc : Service) (request : ActivationRequest) where
    abbrev dispatched :
        ControllerState → Bytes → Bytes → ActivationResult → ControllerActivationResult
    dispatched state id message a = record {
      status = completed;
      state = state;
      event_id = id;
      message = message;
      activation = some a;
    }

    -- From the result of the activation on; the state is `ready`.
    unfoldable pub judge_activation : ActivationResult → M ControllerActivationResult
    judge_activation a =
        if is_rollback_failed a.status
        then (do
          _ ←
              note critical "GH-CTL-2003" request.operation_id "controller.activate" "blocked"
                "Controller blocked after a critical activation rollback failure."
                ControllerState.blocked
          pure (
              dispatched ControllerState.blocked (text "GH-CTL-2003")
                (text "Controller blocked after a critical activation rollback failure.") a))
        else if requires_read_only a.status
        then (do
          _ ←
              note error "GH-CTL-2004" request.operation_id "controller.activate" "read_only"
                "Controller entered read-only mode after activation safety state degraded."
                ControllerState.read_only
          pure (
              dispatched ControllerState.read_only (text "GH-CTL-2004")
                (text "Controller entered read-only mode after activation safety state degraded.")
                a))
        else pure (dispatched ControllerState.ready a.event_id a.message a)

    abbrev perform : M ActivationResult
    perform w = let s = Activation.activate os svc request w in (s.result, s.world)

    unfoldable pub activate : ControllerState → M ControllerActivationResult
    activate state =
        if not (is_ready state)
        then (do
          _ ←
              note warning "GH-CTL-1001" (text "controller-dispatch") "controller.activate"
                "rejected" "Activation dispatch rejected because the controller is not ready." state
          pure (record {
            status = controller_not_ready;
            state = state;
            event_id = text "GH-CTL-1001";
            message = text "Activation dispatch rejected because the controller is not ready.";
            activation = none;
          }))
        else do a ← perform; judge_activation a
