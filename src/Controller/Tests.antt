-- ===== src/Controller/Tests.antt =====
-- Runs of the rate limiter and of the privileged controller, and the theorems applied to them.
use sasd_gatehold.Prelude.{ℕ, ◌≤◌, ◌≡◌, refl, ◌⊎◌, true, none, List, [], ◌∷◌, arith}
use sasd_gatehold.Firewall.Activation.Service as Run
use sasd_gatehold.Firewall.Activation.Admission as Admission
use sasd_gatehold.Firewall.Activation.Rollback as Undo
use sasd_gatehold.Firewall.Activation.Loading as Trial
use sasd_gatehold.Firewall.Activation.Events as Events
use sasd_gatehold.Firewall.Activation.Flow as Flow
use sasd_gatehold.Firewall.Activation.Recovery as Recovery
use sasd_gatehold.Logging.Journal as Journal
use sasd_gatehold.Logging.Event as Event
use sasd_gatehold.Logging.Format.Defs as Format
use sasd_gatehold.Text as Text
use sasd_gatehold.Text.Decimal as Decimal
use sasd_gatehold.Firewall.Revision.Store as Revisions
use sasd_gatehold.Firewall.Pfctl.Run as Pfctl
use sasd_gatehold.Firewall.Transaction.Store as Transactions
use sasd_gatehold.Firewall.Transaction.Record as Record
use sasd_gatehold.Controller.Privileged.Defs as Controller
use sasd_gatehold.Controller.Privileged.Defs.{ControllerState, is_ready}
use sasd_gatehold.Controller.Privileged.States.{start-Recovered, activate-ready}
use sasd_gatehold.Firewall.Activation.Rules.{core}
use sasd_gatehold.Firewall.Activation.Conditions.{Committed, RolledBack, Untouched}
use sasd_gatehold.Firewall.Activation.Recovered.{Recovered}
use sasd_gatehold.Firewall.Tests.{calm_os, request, willing, start, at_risk, crashed, crashed-Holds}
use sasd_gatehold.Controller.Limiter.Defs.{
  AdmissionRateLimitConfig, limiter, drop_expired, try_admit, run,
}
use sasd_gatehold.Controller.Limiter.Bound.{in_force, run-in_force}

abbrev two_per_window : AdmissionRateLimitConfig
two_per_window = record { maximum_admissions = 2; window = 100 }

abbrev calls : List ℕ
calls = 10 ∷ 20 ∷ 30 ∷ 15 ∷ 115 ∷ 116 ∷ 300 ∷ []

admits_some : run 1 calls (limiter two_per_window) ≡ 10 ∷ 20 ∷ 115 ∷ 300 ∷ []
unfolding run try_admit drop_expired
admits_some = refl

run-in_force_example : in_force 100 118 (run 1 calls (limiter two_per_window)) ≤ 2
run-in_force_example = run-in_force 1 two_per_window calls 118 (omega arith)

starts_ready : is_ready (Controller.start calm_os ControllerState.created crashed).0.state ≡ true
unfolding Run.workflow Run.activate Run.carry_out Run.mark_target Run.commit_transaction
    Run.finish_commit Admission.check_request Admission.valid_request Admission.distinct_probes
    Admission.record_event Admission.audited Admission.authorize Admission.judge_authorization
    Admission.note_authorization Admission.resolve_previous Admission.choose_previous
    Admission.accept_previous Admission.refuse_previous Admission.resolve_target
    Admission.revalidate Undo.begin_transaction Undo.note_transaction Undo.announce_load
    Undo.clear_transaction Undo.abandon_transaction Undo.rollback_to_previous
    Undo.revalidate_previous Undo.reload_previous Undo.remark_previous Undo.restore_failed
    Undo.finish_rollback Trial.load_target Trial.advance_to Trial.run_probes Trial.run_probe
    Trial.confirm Trial.judge_confirmation Trial.note_confirmation Flow.◌>>=◌ Flow.pure Flow.lift
    Flow.asks Flow.assign Flow.return_with Flow.note_journal Flow.append Recovery.record_recovery
    Recovery.clear_pending Recovery.note_clear Recovery.report Recovery.clean_committed
    Recovery.recover_committed Recovery.clear_rolled_back Recovery.mark_rolled_back
    Recovery.load_rolled_back Recovery.recover_uncommitted Recovery.recover_transaction
    Recovery.dispatch_pending Recovery.recovery_workflow Recovery.recover_pending Journal.append
    Journal.has_required_fields Event.emplace Format.format Format.severity_text Format.escape_byte
    Format.escape Format.quoted Format.field Format.lowercase Format.starts_with Format.contains
    Format.any_within Format.is_sensitive_key Format.attribute_fields Text.text Text.eq_bytes
    Text.valid_identifier Decimal.to_string Decimal.from_chars Revisions.last_known_good
    Revisions.usable_root Revisions.find_marker Revisions.read_marker Revisions.parse_marker
    Revisions.check_marker Revisions.chop_feed Revisions.load Revisions.mark_last_known_good
    Revisions.store Pfctl.validate Pfctl.judge_validation Pfctl.load Pfctl.judge_load
    Transactions.begin Transactions.load Transactions.advance Transactions.clear
    Record.valid_transaction Record.phase_text Record.parse_phase Record.valid_transition
    Record.line Record.serialize Record.take_line Text.strip_prefix Record.parse_revision
    Record.parse_fields Record.parse Events.activation_event Events.load_event
    Events.transaction_event Events.make_validation_event Controller.note Controller.finish_start
    Controller.start Controller.judge_activation Controller.activate
starts_ready = refl

start-Recovered_example :
    Recovered calm_os at_risk crashed.disk
      (Controller.start calm_os ControllerState.created crashed).1.disk
start-Recovered_example = start-Recovered calm_os at_risk crashed crashed-Holds refl starts_ready

stays_ready :
    is_ready (Controller.activate calm_os willing request ControllerState.ready start).0.state
    ≡ true
unfolding Run.workflow Run.activate Run.carry_out Run.mark_target Run.commit_transaction
    Run.finish_commit Admission.check_request Admission.valid_request Admission.distinct_probes
    Admission.record_event Admission.audited Admission.authorize Admission.judge_authorization
    Admission.note_authorization Admission.resolve_previous Admission.choose_previous
    Admission.accept_previous Admission.refuse_previous Admission.resolve_target
    Admission.revalidate Undo.begin_transaction Undo.note_transaction Undo.announce_load
    Undo.clear_transaction Undo.abandon_transaction Undo.rollback_to_previous
    Undo.revalidate_previous Undo.reload_previous Undo.remark_previous Undo.restore_failed
    Undo.finish_rollback Trial.load_target Trial.advance_to Trial.run_probes Trial.run_probe
    Trial.confirm Trial.judge_confirmation Trial.note_confirmation Flow.◌>>=◌ Flow.pure Flow.lift
    Flow.asks Flow.assign Flow.return_with Flow.note_journal Flow.append Recovery.record_recovery
    Recovery.clear_pending Recovery.note_clear Recovery.report Recovery.clean_committed
    Recovery.recover_committed Recovery.clear_rolled_back Recovery.mark_rolled_back
    Recovery.load_rolled_back Recovery.recover_uncommitted Recovery.recover_transaction
    Recovery.dispatch_pending Recovery.recovery_workflow Recovery.recover_pending Journal.append
    Journal.has_required_fields Event.emplace Format.format Format.severity_text Format.escape_byte
    Format.escape Format.quoted Format.field Format.lowercase Format.starts_with Format.contains
    Format.any_within Format.is_sensitive_key Format.attribute_fields Text.text Text.eq_bytes
    Text.valid_identifier Decimal.to_string Decimal.from_chars Revisions.last_known_good
    Revisions.usable_root Revisions.find_marker Revisions.read_marker Revisions.parse_marker
    Revisions.check_marker Revisions.chop_feed Revisions.load Revisions.mark_last_known_good
    Revisions.store Pfctl.validate Pfctl.judge_validation Pfctl.load Pfctl.judge_load
    Transactions.begin Transactions.load Transactions.advance Transactions.clear
    Record.valid_transaction Record.phase_text Record.parse_phase Record.valid_transition
    Record.line Record.serialize Record.take_line Text.strip_prefix Record.parse_revision
    Record.parse_fields Record.parse Events.activation_event Events.load_event
    Events.transaction_event Events.make_validation_event Controller.note Controller.finish_start
    Controller.start Controller.judge_activation Controller.activate
stays_ready = refl

activate-ready_example :
    let c = core (Run.activate calm_os willing request start) in
    ((Controller.activate calm_os willing request ControllerState.ready start).1.disk ≡ c.disk)
    × ((Committed calm_os willing request start.disk c × (c.disk.pending ≡ none))
        ⊎ RolledBack c
        ⊎ Untouched start.disk c.disk)
activate-ready_example = activate-ready calm_os willing request start (omega arith) refl stays_ready
