-- ===== src/Firewall/Activation/Service.antt =====
-- The commit of a confirmed activation, and `PfActivationService::activate` as a whole,
-- src/core/firewall/activation_service.cpp. Activations exclude one another by a mutex; a run of
-- `activate` is one action.
use sasd_gatehold.Prelude.{Bool, true, false, not, ◌&&◌, [], if◌then◌else◌, some, ℕ}
use sasd_gatehold.Text.{text}
use sasd_gatehold.Host.{Os, World}
use sasd_gatehold.Logging.Event.{info, critical}
use sasd_gatehold.Firewall.Transaction.Record as Record
use sasd_gatehold.Firewall.Transaction.Record.{
  target_loaded, verified, awaiting_confirmation, committing,
}
use sasd_gatehold.Firewall.Transaction.Store as Transactions
use sasd_gatehold.Firewall.Revision.Store as Revisions
use sasd_gatehold.Firewall.Revision.Store.{pointer_ok}
use sasd_gatehold.Firewall.Activation.Types.{
  committed, committed_with_warning, committed_cleanup_pending, commit_failed_rolled_back,
  transaction_store_failed, ActivationRequest, ActivationResult, initial_result, Service,
  AuthorizationResult,
}
use sasd_gatehold.Firewall.Activation.Flow.{Run, ◌>>=◌, ◌>>◌, pure, lift, asks, assign}
use sasd_gatehold.Firewall.Activation.Admission.{
  Step, fail, record_event, check_request, authorize, resolve_previous, resolve_target, revalidate,
}
use sasd_gatehold.Firewall.Activation.Rollback.{
  or_else, is_cleared, clear_transaction, note_transaction, begin_transaction, announce_load,
}
use sasd_gatehold.Firewall.Activation.Loading.{
  is_advanced, rollback, load_target, advance_to, run_probes, confirm,
}

-- The state when `activate` begins.
abbrev pub begin_run : {R : Type 0} → R → World → Run R
begin_run r w = record {
  world = w;
  result = r;
  journaled = [];
  audit_event_id = [];
  audit_message = [];
}

module _ (os : Os) (svc : Service) (request : ActivationRequest) where
  module _ (previous : ℕ) where
    -- Mark the target as last known good.
    unfoldable pub mark_target : Step (Unit {0})
    mark_target = do
      announced ←
          record_event os info (text "GH-ACT-0006") request.operation_id "pf.commit" "started"
            (text "Confirmed PF revision commit started.") request.revision
      if not announced
          then rollback os request previous commit_failed_rolled_back (text "GH-ACT-2002")
              (text "Commit could not be audited.") true
          else do
            marker ← lift (Revisions.mark_last_known_good os request.revision)
            noted ←
                record_event os (if pointer_ok marker then info else critical) marker.event_id
                  request.operation_id "pf.commit.marker"
                  (if pointer_ok marker then "succeeded" else "failed") marker.message
                  request.revision
            if noted && pointer_ok marker
                then pure tt
                else rollback os request previous commit_failed_rolled_back marker.event_id
                    marker.message (not noted)

    -- Record the commit in the transaction; whether it was audited.
    unfoldable pub commit_transaction : Step Bool
    commit_transaction = do
      r ← lift (Transactions.advance os request.operation_id Record.committed)
      assign (λ s. record s { transaction = some r })
      noted ← note_transaction os request r "pf.activation_transaction.advance"
      if is_advanced r.status
          then pure noted
          else rollback os request previous transaction_store_failed r.event_id r.message false

    -- The last event and the clearing of the transaction.
    unfoldable pub finish_commit : Bool → Step (Unit {0})
    finish_commit committed_noted = do
      final_noted ←
          record_event os info (text "GH-ACT-0007") request.operation_id "pf.activate" "committed"
            (text "PF activation was verified, confirmed, and committed.") request.revision
      r ← clear_transaction os request
      id ← asks (λ s. s.audit_event_id)
      if not (is_cleared r.status)
          then fail committed_cleanup_pending r.event_id
              (text "PF revision committed, but durable transaction cleanup is pending.")
          else if not (committed_noted && final_noted)
          then fail committed_with_warning (or_else id "GH-AUDIT-2001")
              (text "PF revision committed, but a post-commit audit append failed.")
          else fail committed (text "GH-ACT-0007")
              (text "PF revision activated and committed successfully.")

    -- From the durable transaction on.
    unfoldable pub carry_out : AuthorizationResult → Step (Unit {0})
    carry_out authorization = do
      begin_transaction os request previous
      announce_load os request previous authorization
      load_target os request previous
      advance_to os request previous target_loaded
      run_probes os request previous svc.probes
      advance_to os request previous verified
      advance_to os request previous awaiting_confirmation
      confirm os request previous svc
      advance_to os request previous committing
      mark_target
      noted ← commit_transaction
      finish_commit noted

  unfoldable pub workflow : Step (Unit {0})
  workflow = do
    check_request os svc request
    authorization ← authorize os svc request
    previous ← resolve_previous os svc request
    resolve_target os svc request
    revalidate os svc request
    carry_out previous authorization

  unfoldable pub activate : World → Run ActivationResult
  activate w = (workflow (begin_run initial_result w)).1
