-- ===== src/Firewall/Activation/Recovery.antt =====
-- `PfActivationService::recover_pending`, src/core/firewall/activation_service.cpp.
use sasd_gatehold.Prelude.{
  ℕ, Bool, true, false, not, ◌&&◌, Option, none, some, [], String, ◌==◌, if◌then◌else◌,
}
use sasd_gatehold.Text.{Bytes, text}
use sasd_gatehold.Host.{Os, World, timestamp}
use sasd_gatehold.Logging.Event.{Severity, info, warning, critical}
use sasd_gatehold.Firewall.Transaction.Record as Record
use sasd_gatehold.Firewall.Transaction.Record.{ActivationPhase, PendingActivation}
use sasd_gatehold.Firewall.Transaction.Store as Transactions
use sasd_gatehold.Firewall.Transaction.Store.{
  ActivationTransactionResult, ActivationTransactionStatus, is_loaded,
}
use sasd_gatehold.Firewall.Revision.Store as Revisions
use sasd_gatehold.Firewall.Revision.Store.{LastKnownGoodResult, pointer_ok, read_ok}
use sasd_gatehold.Firewall.Pfctl.Run as Pfctl
use sasd_gatehold.Firewall.Pfctl.Run.{
  NativeValidationResult, PfctlLoadResult, validation_ok, load_ok,
}
use sasd_gatehold.Firewall.Activation.Flow.{
  Run, Act, ◌>>=◌, ◌>>◌, lift, asks, assign, return_with, append,
}
use sasd_gatehold.Firewall.Activation.Events.{
  activation_event, load_event, transaction_event, make_validation_event,
}
use sasd_gatehold.Firewall.Activation.Rollback.{is_cleared}

pub data ActivationRecoveryStatus : Type 0 where
  no_pending rolled_back committed_cleaned audit_failed_recovered failed : ActivationRecoveryStatus

-- `journaled_events` stands beside the result in the run.
pub record ActivationRecoveryResult : Type 0 where
  pub status : ActivationRecoveryStatus
  pub event_id : Bytes
  pub message : Bytes
  pub transaction : Option PendingActivation
  pub native_validation : Option NativeValidationResult
  pub rollback : Option PfctlLoadResult

abbrev pub recovery_ok : ActivationRecoveryStatus → Bool
recovery_ok failed = false
recovery_ok _ = true

abbrev pub initial_recovery : ActivationRecoveryResult
initial_recovery = record {
  status = failed;
  event_id = [];
  message = [];
  transaction = none;
  native_validation = none;
  rollback = none;
}

abbrev pub Step : Type 0 → Type 0
Step = Act ActivationRecoveryResult

abbrev pub set_recovery :
    ActivationRecoveryStatus → Bytes → Bytes → ActivationRecoveryResult → ActivationRecoveryResult
set_recovery status id message r = record r { status = status; event_id = id; message = message }

abbrev pub finish : {A : Type 0} → ActivationRecoveryStatus → Bytes → Bytes → Step A
finish status id message = return_with (set_recovery status id message)

abbrev pub is_no_pending : ActivationTransactionStatus → Bool
is_no_pending ActivationTransactionStatus.no_pending = true
is_no_pending _ = false

abbrev pub is_committed : ActivationPhase → Bool
is_committed Record.committed = true
is_committed _ = false

-- `ok`, has a value, and the value is the revision.
abbrev pub marks : LastKnownGoodResult → ℕ → Bool
marks l r = elim l.revision [ none ↦ false | some k ↦ pointer_ok l && k == r ]

module _ (os : Os) where
  unfoldable pub record_recovery :
      Severity → Bytes → Bytes → String → String → Bytes → ℕ → Step Bool
  record_recovery severity id operation action outcome message revision = do
    t ← lift (timestamp os)
    append os (activation_event t severity id operation action outcome message revision)

  module _ (pending : PendingActivation) where
    unfoldable pub clear_pending : Step ActivationTransactionResult
    clear_pending = lift (Transactions.clear os pending.operation_id)

    unfoldable pub note_clear : ActivationTransactionResult → Step Bool
    note_clear r = do
      t ← lift (timestamp os)
      append os (
          transaction_event r t pending.operation_id pending.target_revision
            "pf.activation_transaction.clear")

    -- The last event, and a result that says whether the audit is whole.
    unfoldable pub report :
        ActivationRecoveryStatus
        → Severity
        → String
        → String
        → String
        → String
        → ℕ
        → Bool
        → Step (Unit {0})
    report status severity id outcome words summary revision audit_ok = do
      noted ←
          record_recovery severity (text id) pending.operation_id "pf.recovery" outcome (text words)
            revision
      audit_id ← asks (λ s. s.audit_event_id)
      audit_message ← asks (λ s. s.audit_message)
      if noted && audit_ok
          then finish status (text id) (text summary)
          else finish audit_failed_recovered audit_id audit_message

    -- A committed transaction whose marker stands: only the record is left to clear.
    unfoldable pub clean_committed : Bool → Step (Unit {0})
    clean_committed audit_ok = do
      r ← clear_pending
      noted ← note_clear r
      if not (is_cleared r.status)
          then finish failed r.event_id r.message
          else report committed_cleaned info "GH-REC-0003" "committed_cleanup"
              "Committed activation transaction cleanup completed."
              "Committed activation transaction cleaned up." pending.target_revision
              (noted && audit_ok)

    abbrev mismatch : Bytes
    mismatch = text "Committed transaction does not match the last-known-good marker."

    unfoldable pub recover_committed : Bool → Step (Unit {0})
    recover_committed audit_ok = do
      l ← lift (Revisions.last_known_good os)
      if marks l pending.target_revision then clean_committed audit_ok else do
        assign (set_recovery failed (text "GH-REC-2001") mismatch)
        _ ←
            record_recovery critical (text "GH-REC-2001") pending.operation_id "pf.recovery"
              "failed" mismatch pending.target_revision
        return_with (λ r. r)

    unfoldable pub clear_rolled_back : Bool → Step (Unit {0})
    clear_rolled_back audit_ok = do
      r ← clear_pending
      noted ← note_clear r
      if not (is_cleared r.status)
          then finish failed r.event_id r.message
          else report rolled_back warning "GH-REC-0002" "rolled_back"
              "Pending activation was restored to last known good."
              "Pending activation recovered by rollback." pending.rollback_revision
              (noted && audit_ok)

    unfoldable pub mark_rolled_back : Bool → Step (Unit {0})
    mark_rolled_back audit_ok = do
      marker ← lift (Revisions.mark_last_known_good os pending.rollback_revision)
      noted ←
          record_recovery (if pointer_ok marker then info else critical) marker.event_id
            pending.operation_id "pf.recovery.marker"
            (if pointer_ok marker then "succeeded" else "failed") marker.message
            pending.rollback_revision
      if pointer_ok marker
          then clear_rolled_back (noted && audit_ok)
          else finish failed marker.event_id marker.message

    unfoldable pub load_rolled_back : Bool → Step (Unit {0})
    load_rolled_back audit_ok = do
      load ← lift (Pfctl.load os pending.rollback_revision)
      assign (λ r. record r { rollback = some load })
      t ← lift (timestamp os)
      noted ←
          append os (
            load_event load t pending.operation_id pending.rollback_revision "pf.recovery.rollback")
      if load_ok load
          then mark_rolled_back (noted && audit_ok)
          else finish failed load.event_id load.message

    abbrev unavailable : Bytes
    unavailable = text "Recovery rollback revision is unavailable or unsafe."

    unfoldable pub recover_uncommitted : Bool → Step (Unit {0})
    recover_uncommitted audit_ok = do
      revision ← lift (Revisions.load os pending.rollback_revision)
      if not (read_ok revision)
          then (do
            assign (set_recovery failed (text "GH-REC-2002") unavailable)
            _ ←
                record_recovery critical (text "GH-REC-2002") pending.operation_id "pf.recovery"
                  "failed" unavailable pending.rollback_revision
            return_with (λ r. r))
          else do
            validation ← lift (Pfctl.validate os pending.rollback_revision)
            assign (λ r. record r { native_validation = some validation })
            t ← lift (timestamp os)
            noted ←
                append os (
                  make_validation_event validation t pending.operation_id pending.rollback_revision)
            if validation_ok validation
                then load_rolled_back (noted && audit_ok)
                else finish failed validation.event_id validation.message

    unfoldable pub recover_transaction : Step (Unit {0})
    recover_transaction = do
      assign (λ r. record r { transaction = some pending })
      audit_ok ←
          record_recovery warning (text "GH-REC-0001") pending.operation_id "pf.recovery" "started"
            (text "Pending activation recovery started.") pending.target_revision
      if is_committed pending.phase
          then recover_committed audit_ok
          else recover_uncommitted audit_ok

  unfoldable pub dispatch_pending : ActivationTransactionResult → Step (Unit {0})
  dispatch_pending r =
      if is_no_pending r.status
      then finish no_pending r.event_id r.message
      else elim r.transaction [
        | none ↦ finish failed r.event_id r.message
        | some t ↦
            if is_loaded r.status then recover_transaction t else finish failed r.event_id r.message
      ]

  unfoldable pub recovery_workflow : Step (Unit {0})
  recovery_workflow = do r ← lift (Transactions.load os); dispatch_pending r

  unfoldable pub recover_pending : World → Run ActivationRecoveryResult
  recover_pending w =
      (recovery_workflow (record {
        world = w;
        result = initial_recovery;
        journaled = [];
        audit_event_id = [];
        audit_message = [];
      })).1
