-- ===== src/Firewall/Activation/Loading.antt =====
-- `PfActivationService::activate` from the load of the target to its confirmation,
-- src/core/firewall/activation_service.cpp.
use sasd_gatehold.Prelude.{
  ℕ, Bool, true, false, not, ◌&&◌, Option, none, some, List, [], ◌∷◌, ◌++◌, String, if◌then◌else◌,
}
use sasd_gatehold.Text.{Bytes, text, valid_identifier}
use sasd_gatehold.Host.{Os, timestamp}
use sasd_gatehold.Logging.Event.{info, warning, error, with_attribute}
use sasd_gatehold.Firewall.Transaction.Record.{ActivationPhase}
use sasd_gatehold.Firewall.Transaction.Store as Transactions
use sasd_gatehold.Firewall.Transaction.Store.{
  ActivationTransactionResult, ActivationTransactionStatus, advanced,
}
use sasd_gatehold.Firewall.Pfctl.Run as Pfctl
use sasd_gatehold.Firewall.Pfctl.Run.{load_ok}
use sasd_gatehold.Firewall.Activation.Types.{
  HealthProbe, HealthProbeResult, HealthProbeStatus, healthy, probe_ok, ConfirmationResult,
  ConfirmationStatus, confirmed, confirmation_ok, ActivationStatus, activation_failed,
  verification_failed_rolled_back, confirmation_failed_rolled_back, transaction_store_failed,
  ActivationRequest, Service,
}
use sasd_gatehold.Firewall.Activation.Flow.{◌>>=◌, ◌>>◌, pure, lift, asks, assign, append}
use sasd_gatehold.Firewall.Activation.Events.{
  activation_event, load_event, probe_event_id, confirmation_event_id,
}
use sasd_gatehold.Firewall.Activation.Admission.{Step, record_event}
use sasd_gatehold.Firewall.Activation.Rollback.{Reason, rollback_to_previous, note_transaction}

abbrev pub is_advanced : ActivationTransactionStatus → Bool
is_advanced advanced = true
is_advanced _ = false

abbrev reason : ActivationStatus → Bytes → Bytes → Reason
reason s id m = record { status = s; event_id = id; message = m }

abbrev pub or_failed_probe : Option HealthProbeResult → HealthProbeResult
or_failed_probe none = record {
  status = HealthProbeStatus.execution_error;
  message = text "Health probe raised an unexpected exception.";
}
or_failed_probe (some r) = r

abbrev probe_outcome : HealthProbeStatus → String
probe_outcome healthy = "succeeded"
probe_outcome HealthProbeStatus.timed_out = "timed_out"
probe_outcome _ = "failed"

abbrev unavailable_confirmation : String → ConfirmationResult
unavailable_confirmation words = record {
  status = ConfirmationStatus.unavailable;
  confirmation_id = [];
  message = text words;
}

-- An exception is unavailable, and so is a confirmation with an unsafe identifier.
unfoldable pub judge_confirmation : Option ConfirmationResult → ConfirmationResult
judge_confirmation none = unavailable_confirmation "Confirmation provider failed."
judge_confirmation (some c) =
    if confirmation_ok c && not (valid_identifier c.confirmation_id)
    then unavailable_confirmation "Confirmation provider returned an invalid identifier."
    else c

abbrev confirmation_outcome : ConfirmationStatus → String
confirmation_outcome confirmed = "confirmed"
confirmation_outcome ConfirmationStatus.timed_out = "timed_out"
confirmation_outcome ConfirmationStatus.rejected = "rejected"
confirmation_outcome ConfirmationStatus.unavailable = "failed"

module _ (os : Os) (request : ActivationRequest) (previous : ℕ) where
  abbrev pub rollback : {A : Type 0} → ActivationStatus → Bytes → Bytes → Bool → Step A
  rollback status id message compromised =
      rollback_to_previous os request previous (reason status id message) compromised

  unfoldable pub load_target : Step (Unit {0})
  load_target = do
    activated ← lift (Pfctl.load os request.revision)
    assign (λ r. record r { activation = some activated })
    t ← lift (timestamp os)
    noted ←
        append os (load_event activated t request.operation_id request.revision "pf.activate.load")
    if not noted
        then rollback activation_failed activated.event_id activated.message true
        else if load_ok activated
        then pure tt
        else rollback activation_failed activated.event_id activated.message false

  -- `advance` to the phase; without it, or without its event, the activation is rolled back.
  unfoldable pub advance_to : ActivationPhase → Step (Unit {0})
  advance_to p = do
    r ← lift (Transactions.advance os request.operation_id p)
    assign (λ s. record s { transaction = some r })
    noted ← note_transaction os request r "pf.activation_transaction.advance"
    if is_advanced r.status && noted
        then pure tt
        else rollback transaction_store_failed r.event_id r.message (not noted)

  -- One round of the loop over the probes.
  unfoldable pub run_probe : HealthProbe → Step (Unit {0})
  run_probe probe = do
    t ← lift (timestamp os)
    announced ← append os (
        with_attribute (text "probe_id") probe.id (
          activation_event t info (text "GH-ACT-0004") request.operation_id "pf.health_probe"
            "started" (text "Post-activation health probe started.") request.revision))
    if not announced
        then rollback verification_failed_rolled_back (text "GH-PROBE-2002")
            (text "Health verification could not be audited.") true
        else do
          clock ← asks (λ s. s.world.clock)
          let result = or_failed_probe (probe.run request.probe_timeout clock)
          assign (λ r. let old = r.probe_results in record r { probe_results = old ++ result ∷ [] })
          t ← lift (timestamp os)
          noted ← append os (
              with_attribute (text "probe_id") probe.id (
                activation_event t (if probe_ok result then info else error)
                  (text (probe_event_id result.status)) request.operation_id "pf.health_probe"
                  (probe_outcome result.status)
                  (text (
                    if probe_ok result
                    then "Post-activation health probe passed."
                    else "Post-activation health probe failed."))
                  request.revision))
          if noted && probe_ok result
              then pure tt
              else rollback verification_failed_rolled_back (text (probe_event_id result.status))
                  result.message (not noted)

  unfoldable pub run_probes : List HealthProbe → Step (Unit {0})
  run_probes [] = pure tt
  run_probes (p ∷ ps) = do run_probe p; run_probes ps

  -- The event of the confirmation, with its identifier if it is one.
  unfoldable pub note_confirmation : ConfirmationResult → Step Bool
  note_confirmation c = do
    t ← lift (timestamp os)
    let event =
        activation_event t (if confirmation_ok c then info else warning)
          (text (confirmation_event_id c.status)) request.operation_id "pf.confirmation"
          (confirmation_outcome c.status)
          (text (
            if confirmation_ok c
            then "PF activation was explicitly confirmed."
            else "PF activation was not confirmed."))
          request.revision
    append os (
        if confirmation_ok c
        then with_attribute (text "confirmation_id") c.confirmation_id event
        else event)

  unfoldable pub confirm : Service → Step (Unit {0})
  confirm svc = do
    announced ←
        record_event os warning (text "GH-ACT-0005") request.operation_id "pf.confirmation"
          "pending" (text "PF activation is awaiting explicit confirmation.") request.revision
    if not announced
        then rollback confirmation_failed_rolled_back (text "GH-CONF-2001")
            (text "Confirmation could not be audited.") true
        else do
          clock ← asks (λ s. s.world.clock)
          let c = judge_confirmation (
              svc.await_confirmation clock request.operation_id request.revision
                request.confirmation_timeout)
          assign (λ r. record r { confirmation = some c })
          noted ← note_confirmation c
          if noted && confirmation_ok c
              then pure tt
              else rollback confirmation_failed_rolled_back (text (confirmation_event_id c.status))
                  c.message (not noted)
