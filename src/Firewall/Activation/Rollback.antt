-- ===== src/Firewall/Activation/Rollback.antt =====
-- The lambda `rollback_to_previous` of `PfActivationService::activate`,
-- src/core/firewall/activation_service.cpp, and the opening of the durable transaction.
use sasd_gatehold.Prelude.{
  ℕ, Bool, true, false, not, ◌&&◌, ◌||◌, some, String, if◌then◌else◌, is_empty,
}
use sasd_gatehold.Text.{Bytes, text}
use sasd_gatehold.Text.Decimal.{to_string}
use sasd_gatehold.Host.{Os, timestamp}
use sasd_gatehold.Logging.Event.{info, warning, critical, with_attribute}
use sasd_gatehold.Firewall.Transaction.Record.{prepared_for_load, PendingActivation}
use sasd_gatehold.Firewall.Transaction.Store as Transactions
use sasd_gatehold.Firewall.Transaction.Store.{
  ActivationTransactionResult, ActivationTransactionStatus, created, cleared, conflict,
}
use sasd_gatehold.Firewall.Revision.Store as Revisions
use sasd_gatehold.Firewall.Revision.Store.{pointer_ok}
use sasd_gatehold.Firewall.Pfctl.Run as Pfctl
use sasd_gatehold.Firewall.Pfctl.Run.{validation_ok, load_ok}
use sasd_gatehold.Firewall.Activation.Types.{
  ActivationStatus, rollback_failed, audit_failed_rolled_back, transaction_conflict,
  transaction_store_failed, ActivationRequest, AuthorizationResult,
}
use sasd_gatehold.Firewall.Activation.Flow.{
  ◌>>=◌, ◌>>◌, pure, lift, asks, assign, return_with, append,
}
use sasd_gatehold.Firewall.Activation.Events.{
  activation_event, load_event, transaction_event, make_validation_event,
}
use sasd_gatehold.Firewall.Activation.Admission.{
  Step, set_status, fail, fail_audit, audited, record_event,
}

abbrev pub is_cleared : ActivationTransactionStatus → Bool
is_cleared cleared = true
is_cleared _ = false

abbrev pub is_created : ActivationTransactionStatus → Bool
is_created created = true
is_created _ = false

abbrev pub refused_transaction : ActivationTransactionStatus → ActivationStatus
refused_transaction conflict = transaction_conflict
refused_transaction _ = transaction_store_failed

abbrev pub or_else : Bytes → String → Bytes
or_else s words = if is_empty s then text words else s

-- What the caller of the rollback wants to report.
pub record Reason : Type 0 where
  pub status : ActivationStatus
  pub event_id : Bytes
  pub message : Bytes

abbrev pub transaction : ActivationRequest → ℕ → PendingActivation
transaction request previous = record {
  operation_id = request.operation_id;
  target_revision = request.revision;
  rollback_revision = previous;
  phase = prepared_for_load;
}

module _ (os : Os) (request : ActivationRequest) where
  -- Clear the transaction and keep the result.
  unfoldable pub clear_transaction : Step ActivationTransactionResult
  clear_transaction = do
    r ← lift (Transactions.clear os request.operation_id)
    assign (λ s. record s { transaction = some r })
    pure r

  unfoldable pub note_transaction : ActivationTransactionResult → String → Step Bool
  note_transaction r action = do
    t ← lift (timestamp os)
    append os (transaction_event r t request.operation_id request.revision action)

  module _ (previous : ℕ) where
    -- Validate the previous revision; whether it is valid, and whether the audit holds.
    unfoldable pub revalidate_previous : Step (Bool × Bool)
    revalidate_previous = do
      started ←
          record_event os warning (text "GH-ACT-0008") request.operation_id "pf.rollback" "started"
            (text "Rollback to last-known-good revision started.") previous
      validation ← lift (Pfctl.validate os previous)
      t ← lift (timestamp os)
      noted ← append os (make_validation_event validation t request.operation_id previous)
      pure (validation_ok validation, started && noted)

    -- Load the previous revision.
    unfoldable pub reload_previous : Step (Bool × Bool)
    reload_previous = do
      load ← lift (Pfctl.load os previous)
      assign (λ r. record r { rollback = some load; rollback_performed = load_ok load })
      t ← lift (timestamp os)
      noted ← append os (load_event load t request.operation_id previous "pf.rollback.load")
      pure (load_ok load, noted)

    -- Mark the previous revision as last known good.
    unfoldable pub remark_previous : Step (Bool × Bool)
    remark_previous = do
      marker ← lift (Revisions.mark_last_known_good os previous)
      noted ←
          record_event os (if pointer_ok marker then info else critical) marker.event_id
            request.operation_id "pf.rollback.marker"
            (if pointer_ok marker then "succeeded" else "failed") marker.message previous
      pure (pointer_ok marker, noted)

    unfoldable pub restore_failed : {A : Type 0} → Step A
    restore_failed = do
      assign (
          set_status rollback_failed (text "GH-ACT-2001")
            (text "Rollback could not restore both PF and the last-known-good marker."))
      _ ←
          record_event os critical (text "GH-ACT-2001") request.operation_id "pf.rollback" "failed"
            (text "Rollback could not restore both PF and the last-known-good marker.") previous
      return_with (λ r. r)

    -- PF and the marker are restored: clear the transaction and report.
    unfoldable pub finish_rollback : {A : Type 0} → Reason → Bool → Step A
    finish_rollback reason compromised = do
      r ← clear_transaction
      noted ← note_transaction r "pf.activation_transaction.clear"
      if not (is_cleared r.status)
          then fail rollback_failed (text "GH-ACT-2001")
              (text "Rollback restored PF but could not clear its pending transaction.")
          else do
            reported ←
                record_event os warning (text "GH-ACT-0009") request.operation_id "pf.rollback"
                  "succeeded" (text "Last-known-good PF revision was restored.") previous
            id ← asks (λ s. s.audit_event_id)
            message ← asks (λ s. s.audit_message)
            if compromised || not noted || not reported
                then fail audit_failed_rolled_back (or_else id "GH-AUDIT-2001")
                    (or_else message "Audit failed after activation; rollback succeeded.")
                else fail reason.status reason.event_id reason.message

    unfoldable pub rollback_to_previous : {A : Type 0} → Reason → Bool → Step A
    rollback_to_previous reason compromised = do
      (valid, noted) ← revalidate_previous
      if not valid then restore_failed else do
        (loaded, load_noted) ← reload_previous
        if not loaded then restore_failed else do
          (marked, mark_noted) ← remark_previous
          if not marked
              then restore_failed
              else finish_rollback reason
                  (compromised || not noted || not load_noted || not mark_noted)

    -- Undo the transaction because it could not be audited.
    unfoldable pub abandon_transaction : {A : Type 0} → Step A
    abandon_transaction = do
      r ← clear_transaction
      if is_cleared r.status then fail_audit else fail transaction_store_failed r.event_id r.message

    unfoldable pub begin_transaction : Step (Unit {0})
    begin_transaction = do
      audited os (
          record_event os info (text "GH-ACT-0010") request.operation_id
            "pf.activation_transaction.begin" "started"
            (text "Durable activation transaction creation started.") request.revision)
      r ← lift (Transactions.begin os (transaction request previous))
      assign (λ s. record s { transaction = some r })
      noted ← note_transaction r "pf.activation_transaction.begin"
      if not noted
          then (if is_created r.status then abandon_transaction else fail_audit)
          else if is_created r.status
          then pure tt
          else fail (refused_transaction r.status) r.event_id r.message

    -- The last event before PF is changed.
    unfoldable pub announce_load : AuthorizationResult → Step (Unit {0})
    announce_load authorization = do
      t ← lift (timestamp os)
      noted ← append os (
          with_attribute (text "decision_id") authorization.decision_id (
            with_attribute (text "rollback_revision") (to_string previous) (
              activation_event t warning (text "GH-ACT-0003") request.operation_id
                "pf.activate.load" "started" (text "Native PF ruleset replacement started.")
                request.revision)))
      if noted then pure tt else abandon_transaction
