-- ===== src/Firewall/Tests.antt =====
-- Runs of the activation service on a small host, and the theorems applied to them.
use sasd_gatehold.Prelude.{
  ◌≡◌, refl, inl, inr, true, false, All, Option, none, some, [], ◌∷◌, ◌==◌, if◌then◌else◌, arith,
}
use sasd_gatehold.Prelude.Int.{pos}
use sasd_gatehold.Text.{Bytes, text}
use sasd_gatehold.Host.{ProcessResult, Os, File, World}
use sasd_gatehold.Firewall.Revision.Store.{marker_file, revision_file}
use sasd_gatehold.Firewall.Activation.Types.{
  authorized, HealthProbeResult, healthy, unhealthy, confirmed, ActivationRequest, Service,
  ActivationStatus, committed,
}
use sasd_gatehold.Firewall.Activation.Service as Run
use sasd_gatehold.Firewall.Activation.Admission as Admission
use sasd_gatehold.Firewall.Activation.Rollback as Undo
use sasd_gatehold.Firewall.Activation.Loading as Trial
use sasd_gatehold.Firewall.Activation.Events as Events
use sasd_gatehold.Firewall.Activation.Flow as Flow
use sasd_gatehold.Firewall.Activation.Recovery as Recovery
use sasd_gatehold.Logging.Journal as Journal
use sasd_gatehold.Logging.Event as Event
use sasd_gatehold.Logging.Format.Defs as Format
use sasd_gatehold.Text as Text
use sasd_gatehold.Text.Decimal as Decimal
use sasd_gatehold.Firewall.Revision.Store as Revisions
use sasd_gatehold.Firewall.Pfctl.Run as Pfctl
use sasd_gatehold.Firewall.Transaction.Store as Transactions
use sasd_gatehold.Firewall.Transaction.Record as Record
use sasd_gatehold.Firewall.Activation.Service.{activate}
use sasd_gatehold.Firewall.Activation.Recovery.{recovery_ok, recover_pending}
use sasd_gatehold.Firewall.Activation.Rollback.{transaction}
use sasd_gatehold.Firewall.Activation.Rules.{core}
use sasd_gatehold.Firewall.Activation.Conditions.{Settled, Traced}
use sasd_gatehold.Firewall.Activation.Outcome.{activate-Settled, activate-Traced}
use sasd_gatehold.Firewall.Activation.Recovered.{Recovered, Retriable}
use sasd_gatehold.Firewall.Activation.Restart.{
  recover_pending-Recovered, recover_pending-Retriable, recover_pending-idle,
}
use sasd_gatehold.Firewall.Activation.Crash.{OneOf, Safe, activate-recover}
use sasd_gatehold.Firewall.Transaction.Record.{
  awaiting_confirmation, committing, PendingActivation, valid_transaction, valid_transition,
}
use sasd_gatehold.Firewall.Transaction.RoundTrip.{parse-serialize}
use sasd_gatehold.Firewall.Transaction.Store.{created, advanced, cleared, put_pending, record_file}
use sasd_gatehold.Firewall.Transaction.Effect.{
  AtMost, Holds, begin-created, advance-AtMost, advance-advanced, clear-cleared,
}
use sasd_gatehold.Firewall.Revision.Store.{pointer_ok, write_ok, put_marker}
use sasd_gatehold.Firewall.Revision.Effect.{
  last_known_good-marker, mark-marked, store-immutable, store-stored,
}
use sasd_gatehold.Firewall.Pfctl.Run.{load_ok, put_active, load-loaded, load-AtMost}

abbrev accepted : ProcessResult
accepted = record {
  launched = true;
  timed_out = false;
  output_truncated = false;
  exit_code = pos 0;
  standard_output = [];
  standard_error = [];
  error_message = [];
}

-- A host on which every call succeeds.
abbrev pub calm_os : Os
calm_os = record {
  succeeds = λ _. true;
  timestamp = λ _. b'T' ∷ [];
  strerror = λ _. [];
  process = λ _ _. accepted;
  replaced = λ _. false;
  torn = λ _. 0;
}

abbrev pub request : ActivationRequest
request = record {
  operation_id = b'o' ∷ [];
  revision = 2;
  authorization_reference = b'r' ∷ [];
  probe_timeout = 1000;
  confirmation_timeout = 5000;
}

abbrev service_with : Option HealthProbeResult → Service
service_with r = record {
  authorize =
      λ _ _ _ _. some (record { status = authorized; decision_id = b'd' ∷ []; message = [] });
  await_confirmation =
      λ _ _ _ _. some (record { status = confirmed; confirmation_id = b'c' ∷ []; message = [] });
  probes = record { id = b'p' ∷ []; run = λ _ _. r } ∷ [];
}

abbrev pub willing : Service
willing = service_with (some (record { status = healthy; message = [] }))

abbrev reluctant : Service
reluctant = service_with (some (record { status = unhealthy; message = [] }))

abbrev pub start : World
start = record {
  clock = 0;
  disk = record {
    active = 1;
    marker = some (marker_file 1);
    pending = none;
    revisions = λ r.
        if r == 1
        then some (revision_file (b'a' ∷ []))
        else if r == 2
        then some (revision_file (b'b' ∷ []))
        else none;
  };
  past = [];
  journal = none;
}

-- A healthy and confirmed target is committed.
commits : (activate calm_os willing request start).result.status ≡ committed
unfolding Run.workflow Run.activate Run.carry_out Run.mark_target Run.commit_transaction
    Run.finish_commit Admission.check_request Admission.valid_request Admission.distinct_probes
    Admission.record_event Admission.audited Admission.authorize Admission.judge_authorization
    Admission.note_authorization Admission.resolve_previous Admission.choose_previous
    Admission.accept_previous Admission.refuse_previous Admission.resolve_target
    Admission.revalidate Undo.begin_transaction Undo.note_transaction Undo.announce_load
    Undo.clear_transaction Undo.abandon_transaction Undo.rollback_to_previous
    Undo.revalidate_previous Undo.reload_previous Undo.remark_previous Undo.restore_failed
    Undo.finish_rollback Trial.load_target Trial.advance_to Trial.run_probes Trial.run_probe
    Trial.confirm Trial.judge_confirmation Trial.note_confirmation Flow.◌>>=◌ Flow.pure Flow.lift
    Flow.asks Flow.assign Flow.return_with Flow.note_journal Flow.append Recovery.record_recovery
    Recovery.clear_pending Recovery.note_clear Recovery.report Recovery.clean_committed
    Recovery.recover_committed Recovery.clear_rolled_back Recovery.mark_rolled_back
    Recovery.load_rolled_back Recovery.recover_uncommitted Recovery.recover_transaction
    Recovery.dispatch_pending Recovery.recovery_workflow Recovery.recover_pending Journal.append
    Journal.has_required_fields Event.emplace Format.format Format.severity_text Format.escape_byte
    Format.escape Format.quoted Format.field Format.lowercase Format.starts_with Format.contains
    Format.any_within Format.is_sensitive_key Format.attribute_fields Text.text Text.eq_bytes
    Text.valid_identifier Decimal.to_string Decimal.from_chars Revisions.last_known_good
    Revisions.usable_root Revisions.find_marker Revisions.read_marker Revisions.parse_marker
    Revisions.check_marker Revisions.chop_feed Revisions.load Revisions.mark_last_known_good
    Revisions.store Pfctl.validate Pfctl.judge_validation Pfctl.load Pfctl.judge_load
    Transactions.begin Transactions.load Transactions.advance Transactions.clear
    Record.valid_transaction Record.phase_text Record.parse_phase Record.valid_transition
    Record.line Record.serialize Record.take_line Text.strip_prefix Record.parse_revision
    Record.parse_fields Record.parse Events.activation_event Events.load_event
    Events.transaction_event Events.make_validation_event
commits = refl

-- A target that fails its probe is rolled back.
rolls_back :
    (activate calm_os reluctant request start).result.status
    ≡ ActivationStatus.verification_failed_rolled_back
unfolding Run.workflow Run.activate Run.carry_out Run.mark_target Run.commit_transaction
    Run.finish_commit Admission.check_request Admission.valid_request Admission.distinct_probes
    Admission.record_event Admission.audited Admission.authorize Admission.judge_authorization
    Admission.note_authorization Admission.resolve_previous Admission.choose_previous
    Admission.accept_previous Admission.refuse_previous Admission.resolve_target
    Admission.revalidate Undo.begin_transaction Undo.note_transaction Undo.announce_load
    Undo.clear_transaction Undo.abandon_transaction Undo.rollback_to_previous
    Undo.revalidate_previous Undo.reload_previous Undo.remark_previous Undo.restore_failed
    Undo.finish_rollback Trial.load_target Trial.advance_to Trial.run_probes Trial.run_probe
    Trial.confirm Trial.judge_confirmation Trial.note_confirmation Flow.◌>>=◌ Flow.pure Flow.lift
    Flow.asks Flow.assign Flow.return_with Flow.note_journal Flow.append Recovery.record_recovery
    Recovery.clear_pending Recovery.note_clear Recovery.report Recovery.clean_committed
    Recovery.recover_committed Recovery.clear_rolled_back Recovery.mark_rolled_back
    Recovery.load_rolled_back Recovery.recover_uncommitted Recovery.recover_transaction
    Recovery.dispatch_pending Recovery.recovery_workflow Recovery.recover_pending Journal.append
    Journal.has_required_fields Event.emplace Format.format Format.severity_text Format.escape_byte
    Format.escape Format.quoted Format.field Format.lowercase Format.starts_with Format.contains
    Format.any_within Format.is_sensitive_key Format.attribute_fields Text.text Text.eq_bytes
    Text.valid_identifier Decimal.to_string Decimal.from_chars Revisions.last_known_good
    Revisions.usable_root Revisions.find_marker Revisions.read_marker Revisions.parse_marker
    Revisions.check_marker Revisions.chop_feed Revisions.load Revisions.mark_last_known_good
    Revisions.store Pfctl.validate Pfctl.judge_validation Pfctl.load Pfctl.judge_load
    Transactions.begin Transactions.load Transactions.advance Transactions.clear
    Record.valid_transaction Record.phase_text Record.parse_phase Record.valid_transition
    Record.line Record.serialize Record.take_line Text.strip_prefix Record.parse_revision
    Record.parse_fields Record.parse Events.activation_event Events.load_event
    Events.transaction_event Events.make_validation_event
rolls_back = refl

activate-Settled_example :
    let s = activate calm_os willing request start in
    Settled request start.disk calm_os willing s.result.status (core s)
activate-Settled_example = activate-Settled calm_os willing request start (omega arith) refl

activate-Traced_example :
    let s = activate calm_os reluctant request start in
    Traced request start.disk s.result.rollback_revision s.world.disk s.world.past
activate-Traced_example = activate-Traced calm_os reluctant request start (omega arith) refl

abbrev pub at_risk : PendingActivation
at_risk = record {
  operation_id = b'o' ∷ [];
  target_revision = 2;
  rollback_revision = 1;
  phase = awaiting_confirmation;
}

-- The disk after a crash while the confirmation is awaited.
abbrev pub crashed : World
crashed = record {
  clock = 0;
  disk = record {
    active = 2;
    marker = some (marker_file 1);
    pending = some (record_file at_risk);
    revisions = start.disk.revisions;
  };
  past = [];
  journal = none;
}

falls_back_on : (activate calm_os willing request start).result.rollback_revision ≡ some 1
unfolding Run.workflow Run.activate Run.carry_out Run.mark_target Run.commit_transaction
    Run.finish_commit Admission.check_request Admission.valid_request Admission.distinct_probes
    Admission.record_event Admission.audited Admission.authorize Admission.judge_authorization
    Admission.note_authorization Admission.resolve_previous Admission.choose_previous
    Admission.accept_previous Admission.refuse_previous Admission.resolve_target
    Admission.revalidate Undo.begin_transaction Undo.note_transaction Undo.announce_load
    Undo.clear_transaction Undo.abandon_transaction Undo.rollback_to_previous
    Undo.revalidate_previous Undo.reload_previous Undo.remark_previous Undo.restore_failed
    Undo.finish_rollback Trial.load_target Trial.advance_to Trial.run_probes Trial.run_probe
    Trial.confirm Trial.judge_confirmation Trial.note_confirmation Flow.◌>>=◌ Flow.pure Flow.lift
    Flow.asks Flow.assign Flow.return_with Flow.note_journal Flow.append Recovery.record_recovery
    Recovery.clear_pending Recovery.note_clear Recovery.report Recovery.clean_committed
    Recovery.recover_committed Recovery.clear_rolled_back Recovery.mark_rolled_back
    Recovery.load_rolled_back Recovery.recover_uncommitted Recovery.recover_transaction
    Recovery.dispatch_pending Recovery.recovery_workflow Recovery.recover_pending Journal.append
    Journal.has_required_fields Event.emplace Format.format Format.severity_text Format.escape_byte
    Format.escape Format.quoted Format.field Format.lowercase Format.starts_with Format.contains
    Format.any_within Format.is_sensitive_key Format.attribute_fields Text.text Text.eq_bytes
    Text.valid_identifier Decimal.to_string Decimal.from_chars Revisions.last_known_good
    Revisions.usable_root Revisions.find_marker Revisions.read_marker Revisions.parse_marker
    Revisions.check_marker Revisions.chop_feed Revisions.load Revisions.mark_last_known_good
    Revisions.store Pfctl.validate Pfctl.judge_validation Pfctl.load Pfctl.judge_load
    Transactions.begin Transactions.load Transactions.advance Transactions.clear
    Record.valid_transaction Record.phase_text Record.parse_phase Record.valid_transition
    Record.line Record.serialize Record.take_line Text.strip_prefix Record.parse_revision
    Record.parse_fields Record.parse Events.activation_event Events.load_event
    Events.transaction_event Events.make_validation_event
falls_back_on = refl

passes_through :
    let s = activate calm_os willing request start in
    OneOf crashed.disk (s.world.disk ∷ s.world.past)
unfolding Run.workflow Run.activate Run.carry_out Run.mark_target Run.commit_transaction
    Run.finish_commit Admission.check_request Admission.valid_request Admission.distinct_probes
    Admission.record_event Admission.audited Admission.authorize Admission.judge_authorization
    Admission.note_authorization Admission.resolve_previous Admission.choose_previous
    Admission.accept_previous Admission.refuse_previous Admission.resolve_target
    Admission.revalidate Undo.begin_transaction Undo.note_transaction Undo.announce_load
    Undo.clear_transaction Undo.abandon_transaction Undo.rollback_to_previous
    Undo.revalidate_previous Undo.reload_previous Undo.remark_previous Undo.restore_failed
    Undo.finish_rollback Trial.load_target Trial.advance_to Trial.run_probes Trial.run_probe
    Trial.confirm Trial.judge_confirmation Trial.note_confirmation Flow.◌>>=◌ Flow.pure Flow.lift
    Flow.asks Flow.assign Flow.return_with Flow.note_journal Flow.append Recovery.record_recovery
    Recovery.clear_pending Recovery.note_clear Recovery.report Recovery.clean_committed
    Recovery.recover_committed Recovery.clear_rolled_back Recovery.mark_rolled_back
    Recovery.load_rolled_back Recovery.recover_uncommitted Recovery.recover_transaction
    Recovery.dispatch_pending Recovery.recovery_workflow Recovery.recover_pending Journal.append
    Journal.has_required_fields Event.emplace Format.format Format.severity_text Format.escape_byte
    Format.escape Format.quoted Format.field Format.lowercase Format.starts_with Format.contains
    Format.any_within Format.is_sensitive_key Format.attribute_fields Text.text Text.eq_bytes
    Text.valid_identifier Decimal.to_string Decimal.from_chars Revisions.last_known_good
    Revisions.usable_root Revisions.find_marker Revisions.read_marker Revisions.parse_marker
    Revisions.check_marker Revisions.chop_feed Revisions.load Revisions.mark_last_known_good
    Revisions.store Pfctl.validate Pfctl.judge_validation Pfctl.load Pfctl.judge_load
    Transactions.begin Transactions.load Transactions.advance Transactions.clear
    Record.valid_transaction Record.phase_text Record.parse_phase Record.valid_transition
    Record.line Record.serialize Record.take_line Text.strip_prefix Record.parse_revision
    Record.parse_fields Record.parse Events.activation_event Events.load_event
    Events.transaction_event Events.make_validation_event
passes_through = inr (inr (inr (inr (inl refl))))

recovers : recovery_ok (recover_pending calm_os crashed).result.status ≡ true
unfolding Run.workflow Run.activate Run.carry_out Run.mark_target Run.commit_transaction
    Run.finish_commit Admission.check_request Admission.valid_request Admission.distinct_probes
    Admission.record_event Admission.audited Admission.authorize Admission.judge_authorization
    Admission.note_authorization Admission.resolve_previous Admission.choose_previous
    Admission.accept_previous Admission.refuse_previous Admission.resolve_target
    Admission.revalidate Undo.begin_transaction Undo.note_transaction Undo.announce_load
    Undo.clear_transaction Undo.abandon_transaction Undo.rollback_to_previous
    Undo.revalidate_previous Undo.reload_previous Undo.remark_previous Undo.restore_failed
    Undo.finish_rollback Trial.load_target Trial.advance_to Trial.run_probes Trial.run_probe
    Trial.confirm Trial.judge_confirmation Trial.note_confirmation Flow.◌>>=◌ Flow.pure Flow.lift
    Flow.asks Flow.assign Flow.return_with Flow.note_journal Flow.append Recovery.record_recovery
    Recovery.clear_pending Recovery.note_clear Recovery.report Recovery.clean_committed
    Recovery.recover_committed Recovery.clear_rolled_back Recovery.mark_rolled_back
    Recovery.load_rolled_back Recovery.recover_uncommitted Recovery.recover_transaction
    Recovery.dispatch_pending Recovery.recovery_workflow Recovery.recover_pending Journal.append
    Journal.has_required_fields Event.emplace Format.format Format.severity_text Format.escape_byte
    Format.escape Format.quoted Format.field Format.lowercase Format.starts_with Format.contains
    Format.any_within Format.is_sensitive_key Format.attribute_fields Text.text Text.eq_bytes
    Text.valid_identifier Decimal.to_string Decimal.from_chars Revisions.last_known_good
    Revisions.usable_root Revisions.find_marker Revisions.read_marker Revisions.parse_marker
    Revisions.check_marker Revisions.chop_feed Revisions.load Revisions.mark_last_known_good
    Revisions.store Pfctl.validate Pfctl.judge_validation Pfctl.load Pfctl.judge_load
    Transactions.begin Transactions.load Transactions.advance Transactions.clear
    Record.valid_transaction Record.phase_text Record.parse_phase Record.valid_transition
    Record.line Record.serialize Record.take_line Text.strip_prefix Record.parse_revision
    Record.parse_fields Record.parse Events.activation_event Events.load_event
    Events.transaction_event Events.make_validation_event
recovers = refl

activate-recover_example :
    Safe request start.disk 1 crashed.disk (recover_pending calm_os crashed).world.disk
activate-recover_example =
    activate-recover calm_os calm_os willing request start crashed 1 (omega arith) refl refl
      falls_back_on passes_through refl recovers

at_risk-valid : valid_transaction at_risk ≡ true
unfolding Run.workflow Run.activate Run.carry_out Run.mark_target Run.commit_transaction
    Run.finish_commit Admission.check_request Admission.valid_request Admission.distinct_probes
    Admission.record_event Admission.audited Admission.authorize Admission.judge_authorization
    Admission.note_authorization Admission.resolve_previous Admission.choose_previous
    Admission.accept_previous Admission.refuse_previous Admission.resolve_target
    Admission.revalidate Undo.begin_transaction Undo.note_transaction Undo.announce_load
    Undo.clear_transaction Undo.abandon_transaction Undo.rollback_to_previous
    Undo.revalidate_previous Undo.reload_previous Undo.remark_previous Undo.restore_failed
    Undo.finish_rollback Trial.load_target Trial.advance_to Trial.run_probes Trial.run_probe
    Trial.confirm Trial.judge_confirmation Trial.note_confirmation Flow.◌>>=◌ Flow.pure Flow.lift
    Flow.asks Flow.assign Flow.return_with Flow.note_journal Flow.append Recovery.record_recovery
    Recovery.clear_pending Recovery.note_clear Recovery.report Recovery.clean_committed
    Recovery.recover_committed Recovery.clear_rolled_back Recovery.mark_rolled_back
    Recovery.load_rolled_back Recovery.recover_uncommitted Recovery.recover_transaction
    Recovery.dispatch_pending Recovery.recovery_workflow Recovery.recover_pending Journal.append
    Journal.has_required_fields Event.emplace Format.format Format.severity_text Format.escape_byte
    Format.escape Format.quoted Format.field Format.lowercase Format.starts_with Format.contains
    Format.any_within Format.is_sensitive_key Format.attribute_fields Text.text Text.eq_bytes
    Text.valid_identifier Decimal.to_string Decimal.from_chars Revisions.last_known_good
    Revisions.usable_root Revisions.find_marker Revisions.read_marker Revisions.parse_marker
    Revisions.check_marker Revisions.chop_feed Revisions.load Revisions.mark_last_known_good
    Revisions.store Pfctl.validate Pfctl.judge_validation Pfctl.load Pfctl.judge_load
    Transactions.begin Transactions.load Transactions.advance Transactions.clear
    Record.valid_transaction Record.phase_text Record.parse_phase Record.valid_transition
    Record.line Record.serialize Record.take_line Text.strip_prefix Record.parse_revision
    Record.parse_fields Record.parse Events.activation_event Events.load_event
    Events.transaction_event Events.make_validation_event
at_risk-valid = refl

parse-serialize_example : Record.parse (Record.serialize at_risk) ≡ some at_risk
parse-serialize_example = parse-serialize at_risk at_risk-valid (omega arith) (omega arith)

pub crashed-Holds : Holds at_risk crashed.disk
crashed-Holds = record {
  stored = refl;
  readable = parse-serialize at_risk at_risk-valid (omega arith) (omega arith);
}

recover_pending-Recovered_example :
    Recovered calm_os at_risk crashed.disk (recover_pending calm_os crashed).world.disk
recover_pending-Recovered_example =
    recover_pending-Recovered calm_os at_risk crashed crashed-Holds refl recovers

recover_pending-Retriable_example :
    let s = recover_pending calm_os crashed in
    All (Retriable calm_os at_risk crashed.disk) (s.world.disk ∷ s.world.past)
recover_pending-Retriable_example =
    recover_pending-Retriable calm_os at_risk crashed crashed-Holds refl

recover_pending-idle_example :
    let s = recover_pending calm_os start in
    (s.world.disk ≡ start.disk) × (s.world.past ≡ start.past)
recover_pending-idle_example = recover_pending-idle calm_os start refl

begins : (Transactions.begin calm_os (transaction request 1) start).0.status ≡ created
unfolding Run.workflow Run.activate Run.carry_out Run.mark_target Run.commit_transaction
    Run.finish_commit Admission.check_request Admission.valid_request Admission.distinct_probes
    Admission.record_event Admission.audited Admission.authorize Admission.judge_authorization
    Admission.note_authorization Admission.resolve_previous Admission.choose_previous
    Admission.accept_previous Admission.refuse_previous Admission.resolve_target
    Admission.revalidate Undo.begin_transaction Undo.note_transaction Undo.announce_load
    Undo.clear_transaction Undo.abandon_transaction Undo.rollback_to_previous
    Undo.revalidate_previous Undo.reload_previous Undo.remark_previous Undo.restore_failed
    Undo.finish_rollback Trial.load_target Trial.advance_to Trial.run_probes Trial.run_probe
    Trial.confirm Trial.judge_confirmation Trial.note_confirmation Flow.◌>>=◌ Flow.pure Flow.lift
    Flow.asks Flow.assign Flow.return_with Flow.note_journal Flow.append Recovery.record_recovery
    Recovery.clear_pending Recovery.note_clear Recovery.report Recovery.clean_committed
    Recovery.recover_committed Recovery.clear_rolled_back Recovery.mark_rolled_back
    Recovery.load_rolled_back Recovery.recover_uncommitted Recovery.recover_transaction
    Recovery.dispatch_pending Recovery.recovery_workflow Recovery.recover_pending Journal.append
    Journal.has_required_fields Event.emplace Format.format Format.severity_text Format.escape_byte
    Format.escape Format.quoted Format.field Format.lowercase Format.starts_with Format.contains
    Format.any_within Format.is_sensitive_key Format.attribute_fields Text.text Text.eq_bytes
    Text.valid_identifier Decimal.to_string Decimal.from_chars Revisions.last_known_good
    Revisions.usable_root Revisions.find_marker Revisions.read_marker Revisions.parse_marker
    Revisions.check_marker Revisions.chop_feed Revisions.load Revisions.mark_last_known_good
    Revisions.store Pfctl.validate Pfctl.judge_validation Pfctl.load Pfctl.judge_load
    Transactions.begin Transactions.load Transactions.advance Transactions.clear
    Record.valid_transaction Record.phase_text Record.parse_phase Record.valid_transition
    Record.line Record.serialize Record.take_line Text.strip_prefix Record.parse_revision
    Record.parse_fields Record.parse Events.activation_event Events.load_event
    Events.transaction_event Events.make_validation_event
begins = refl

begin-created_example :
    let s = (Transactions.begin calm_os (transaction request 1) start).1 in
    (s.disk ≡ put_pending (some (record_file (transaction request 1))) start.disk)
    × (s.past ≡ start.disk ∷ start.past)
    × (start.disk.pending ≡ none)
begin-created_example = begin-created calm_os (transaction request 1) start begins

advances : (Transactions.advance calm_os (b'o' ∷ []) committing crashed).0.status ≡ advanced
unfolding Run.workflow Run.activate Run.carry_out Run.mark_target Run.commit_transaction
    Run.finish_commit Admission.check_request Admission.valid_request Admission.distinct_probes
    Admission.record_event Admission.audited Admission.authorize Admission.judge_authorization
    Admission.note_authorization Admission.resolve_previous Admission.choose_previous
    Admission.accept_previous Admission.refuse_previous Admission.resolve_target
    Admission.revalidate Undo.begin_transaction Undo.note_transaction Undo.announce_load
    Undo.clear_transaction Undo.abandon_transaction Undo.rollback_to_previous
    Undo.revalidate_previous Undo.reload_previous Undo.remark_previous Undo.restore_failed
    Undo.finish_rollback Trial.load_target Trial.advance_to Trial.run_probes Trial.run_probe
    Trial.confirm Trial.judge_confirmation Trial.note_confirmation Flow.◌>>=◌ Flow.pure Flow.lift
    Flow.asks Flow.assign Flow.return_with Flow.note_journal Flow.append Recovery.record_recovery
    Recovery.clear_pending Recovery.note_clear Recovery.report Recovery.clean_committed
    Recovery.recover_committed Recovery.clear_rolled_back Recovery.mark_rolled_back
    Recovery.load_rolled_back Recovery.recover_uncommitted Recovery.recover_transaction
    Recovery.dispatch_pending Recovery.recovery_workflow Recovery.recover_pending Journal.append
    Journal.has_required_fields Event.emplace Format.format Format.severity_text Format.escape_byte
    Format.escape Format.quoted Format.field Format.lowercase Format.starts_with Format.contains
    Format.any_within Format.is_sensitive_key Format.attribute_fields Text.text Text.eq_bytes
    Text.valid_identifier Decimal.to_string Decimal.from_chars Revisions.last_known_good
    Revisions.usable_root Revisions.find_marker Revisions.read_marker Revisions.parse_marker
    Revisions.check_marker Revisions.chop_feed Revisions.load Revisions.mark_last_known_good
    Revisions.store Pfctl.validate Pfctl.judge_validation Pfctl.load Pfctl.judge_load
    Transactions.begin Transactions.load Transactions.advance Transactions.clear
    Record.valid_transaction Record.phase_text Record.parse_phase Record.valid_transition
    Record.line Record.serialize Record.take_line Text.strip_prefix Record.parse_revision
    Record.parse_fields Record.parse Events.activation_event Events.load_event
    Events.transaction_event Events.make_validation_event
advances = refl

advance-advanced_example :
    let s = (Transactions.advance calm_os (b'o' ∷ []) committing crashed).1 in
    (s.disk ≡ put_pending (some (record_file (record at_risk { phase = committing }))) crashed.disk)
    × (s.past ≡ crashed.disk ∷ crashed.past)
    × (valid_transition awaiting_confirmation committing ≡ true)
advance-advanced_example =
    advance-advanced calm_os at_risk (b'o' ∷ []) committing crashed crashed-Holds advances

advance-AtMost_example :
    AtMost
      (put_pending (some (record_file (record at_risk { phase = committing }))) crashed.disk)
      crashed
      (Transactions.advance calm_os (b'o' ∷ []) committing crashed).1
advance-AtMost_example = advance-AtMost calm_os at_risk (b'o' ∷ []) committing crashed crashed-Holds

clears : (Transactions.clear calm_os (b'o' ∷ []) crashed).0.status ≡ cleared
unfolding Run.workflow Run.activate Run.carry_out Run.mark_target Run.commit_transaction
    Run.finish_commit Admission.check_request Admission.valid_request Admission.distinct_probes
    Admission.record_event Admission.audited Admission.authorize Admission.judge_authorization
    Admission.note_authorization Admission.resolve_previous Admission.choose_previous
    Admission.accept_previous Admission.refuse_previous Admission.resolve_target
    Admission.revalidate Undo.begin_transaction Undo.note_transaction Undo.announce_load
    Undo.clear_transaction Undo.abandon_transaction Undo.rollback_to_previous
    Undo.revalidate_previous Undo.reload_previous Undo.remark_previous Undo.restore_failed
    Undo.finish_rollback Trial.load_target Trial.advance_to Trial.run_probes Trial.run_probe
    Trial.confirm Trial.judge_confirmation Trial.note_confirmation Flow.◌>>=◌ Flow.pure Flow.lift
    Flow.asks Flow.assign Flow.return_with Flow.note_journal Flow.append Recovery.record_recovery
    Recovery.clear_pending Recovery.note_clear Recovery.report Recovery.clean_committed
    Recovery.recover_committed Recovery.clear_rolled_back Recovery.mark_rolled_back
    Recovery.load_rolled_back Recovery.recover_uncommitted Recovery.recover_transaction
    Recovery.dispatch_pending Recovery.recovery_workflow Recovery.recover_pending Journal.append
    Journal.has_required_fields Event.emplace Format.format Format.severity_text Format.escape_byte
    Format.escape Format.quoted Format.field Format.lowercase Format.starts_with Format.contains
    Format.any_within Format.is_sensitive_key Format.attribute_fields Text.text Text.eq_bytes
    Text.valid_identifier Decimal.to_string Decimal.from_chars Revisions.last_known_good
    Revisions.usable_root Revisions.find_marker Revisions.read_marker Revisions.parse_marker
    Revisions.check_marker Revisions.chop_feed Revisions.load Revisions.mark_last_known_good
    Revisions.store Pfctl.validate Pfctl.judge_validation Pfctl.load Pfctl.judge_load
    Transactions.begin Transactions.load Transactions.advance Transactions.clear
    Record.valid_transaction Record.phase_text Record.parse_phase Record.valid_transition
    Record.line Record.serialize Record.take_line Text.strip_prefix Record.parse_revision
    Record.parse_fields Record.parse Events.activation_event Events.load_event
    Events.transaction_event Events.make_validation_event
clears = refl

clear-cleared_example :
    let s = (Transactions.clear calm_os (b'o' ∷ []) crashed).1 in
    (s.disk ≡ put_pending none crashed.disk) × (s.past ≡ crashed.disk ∷ crashed.past)
clear-cleared_example = clear-cleared calm_os (b'o' ∷ []) crashed clears

finds : pointer_ok (Revisions.last_known_good calm_os start).0 ≡ true
unfolding Run.workflow Run.activate Run.carry_out Run.mark_target Run.commit_transaction
    Run.finish_commit Admission.check_request Admission.valid_request Admission.distinct_probes
    Admission.record_event Admission.audited Admission.authorize Admission.judge_authorization
    Admission.note_authorization Admission.resolve_previous Admission.choose_previous
    Admission.accept_previous Admission.refuse_previous Admission.resolve_target
    Admission.revalidate Undo.begin_transaction Undo.note_transaction Undo.announce_load
    Undo.clear_transaction Undo.abandon_transaction Undo.rollback_to_previous
    Undo.revalidate_previous Undo.reload_previous Undo.remark_previous Undo.restore_failed
    Undo.finish_rollback Trial.load_target Trial.advance_to Trial.run_probes Trial.run_probe
    Trial.confirm Trial.judge_confirmation Trial.note_confirmation Flow.◌>>=◌ Flow.pure Flow.lift
    Flow.asks Flow.assign Flow.return_with Flow.note_journal Flow.append Recovery.record_recovery
    Recovery.clear_pending Recovery.note_clear Recovery.report Recovery.clean_committed
    Recovery.recover_committed Recovery.clear_rolled_back Recovery.mark_rolled_back
    Recovery.load_rolled_back Recovery.recover_uncommitted Recovery.recover_transaction
    Recovery.dispatch_pending Recovery.recovery_workflow Recovery.recover_pending Journal.append
    Journal.has_required_fields Event.emplace Format.format Format.severity_text Format.escape_byte
    Format.escape Format.quoted Format.field Format.lowercase Format.starts_with Format.contains
    Format.any_within Format.is_sensitive_key Format.attribute_fields Text.text Text.eq_bytes
    Text.valid_identifier Decimal.to_string Decimal.from_chars Revisions.last_known_good
    Revisions.usable_root Revisions.find_marker Revisions.read_marker Revisions.parse_marker
    Revisions.check_marker Revisions.chop_feed Revisions.load Revisions.mark_last_known_good
    Revisions.store Pfctl.validate Pfctl.judge_validation Pfctl.load Pfctl.judge_load
    Transactions.begin Transactions.load Transactions.advance Transactions.clear
    Record.valid_transaction Record.phase_text Record.parse_phase Record.valid_transition
    Record.line Record.serialize Record.take_line Text.strip_prefix Record.parse_revision
    Record.parse_fields Record.parse Events.activation_event Events.load_event
    Events.transaction_event Events.make_validation_event
finds = refl

last_known_good-marker_example : (Revisions.last_known_good calm_os start).0.revision ≡ some 1
last_known_good-marker_example = last_known_good-marker calm_os 1 start (omega arith) refl finds

marks_it : pointer_ok (Revisions.mark_last_known_good calm_os 2 start).0 ≡ true
unfolding Run.workflow Run.activate Run.carry_out Run.mark_target Run.commit_transaction
    Run.finish_commit Admission.check_request Admission.valid_request Admission.distinct_probes
    Admission.record_event Admission.audited Admission.authorize Admission.judge_authorization
    Admission.note_authorization Admission.resolve_previous Admission.choose_previous
    Admission.accept_previous Admission.refuse_previous Admission.resolve_target
    Admission.revalidate Undo.begin_transaction Undo.note_transaction Undo.announce_load
    Undo.clear_transaction Undo.abandon_transaction Undo.rollback_to_previous
    Undo.revalidate_previous Undo.reload_previous Undo.remark_previous Undo.restore_failed
    Undo.finish_rollback Trial.load_target Trial.advance_to Trial.run_probes Trial.run_probe
    Trial.confirm Trial.judge_confirmation Trial.note_confirmation Flow.◌>>=◌ Flow.pure Flow.lift
    Flow.asks Flow.assign Flow.return_with Flow.note_journal Flow.append Recovery.record_recovery
    Recovery.clear_pending Recovery.note_clear Recovery.report Recovery.clean_committed
    Recovery.recover_committed Recovery.clear_rolled_back Recovery.mark_rolled_back
    Recovery.load_rolled_back Recovery.recover_uncommitted Recovery.recover_transaction
    Recovery.dispatch_pending Recovery.recovery_workflow Recovery.recover_pending Journal.append
    Journal.has_required_fields Event.emplace Format.format Format.severity_text Format.escape_byte
    Format.escape Format.quoted Format.field Format.lowercase Format.starts_with Format.contains
    Format.any_within Format.is_sensitive_key Format.attribute_fields Text.text Text.eq_bytes
    Text.valid_identifier Decimal.to_string Decimal.from_chars Revisions.last_known_good
    Revisions.usable_root Revisions.find_marker Revisions.read_marker Revisions.parse_marker
    Revisions.check_marker Revisions.chop_feed Revisions.load Revisions.mark_last_known_good
    Revisions.store Pfctl.validate Pfctl.judge_validation Pfctl.load Pfctl.judge_load
    Transactions.begin Transactions.load Transactions.advance Transactions.clear
    Record.valid_transaction Record.phase_text Record.parse_phase Record.valid_transition
    Record.line Record.serialize Record.take_line Text.strip_prefix Record.parse_revision
    Record.parse_fields Record.parse Events.activation_event Events.load_event
    Events.transaction_event Events.make_validation_event
marks_it = refl

mark-marked_example :
    let s = (Revisions.mark_last_known_good calm_os 2 start).1 in
    (s.disk ≡ put_marker (some (marker_file 2)) start.disk) × (s.past ≡ start.disk ∷ start.past)
mark-marked_example = mark-marked calm_os 2 start marks_it

abbrev candidate : File
candidate = revision_file (b'n' ∷ [])

store-immutable_example :
    (Revisions.store calm_os 2 (some candidate) start).1.disk.revisions 2
    ≡ some (revision_file (b'b' ∷ []))
store-immutable_example =
    store-immutable calm_os 2 2 (some candidate) (revision_file (b'b' ∷ [])) start refl

stores : write_ok (Revisions.store calm_os 3 (some candidate) start).0 ≡ true
unfolding Run.workflow Run.activate Run.carry_out Run.mark_target Run.commit_transaction
    Run.finish_commit Admission.check_request Admission.valid_request Admission.distinct_probes
    Admission.record_event Admission.audited Admission.authorize Admission.judge_authorization
    Admission.note_authorization Admission.resolve_previous Admission.choose_previous
    Admission.accept_previous Admission.refuse_previous Admission.resolve_target
    Admission.revalidate Undo.begin_transaction Undo.note_transaction Undo.announce_load
    Undo.clear_transaction Undo.abandon_transaction Undo.rollback_to_previous
    Undo.revalidate_previous Undo.reload_previous Undo.remark_previous Undo.restore_failed
    Undo.finish_rollback Trial.load_target Trial.advance_to Trial.run_probes Trial.run_probe
    Trial.confirm Trial.judge_confirmation Trial.note_confirmation Flow.◌>>=◌ Flow.pure Flow.lift
    Flow.asks Flow.assign Flow.return_with Flow.note_journal Flow.append Recovery.record_recovery
    Recovery.clear_pending Recovery.note_clear Recovery.report Recovery.clean_committed
    Recovery.recover_committed Recovery.clear_rolled_back Recovery.mark_rolled_back
    Recovery.load_rolled_back Recovery.recover_uncommitted Recovery.recover_transaction
    Recovery.dispatch_pending Recovery.recovery_workflow Recovery.recover_pending Journal.append
    Journal.has_required_fields Event.emplace Format.format Format.severity_text Format.escape_byte
    Format.escape Format.quoted Format.field Format.lowercase Format.starts_with Format.contains
    Format.any_within Format.is_sensitive_key Format.attribute_fields Text.text Text.eq_bytes
    Text.valid_identifier Decimal.to_string Decimal.from_chars Revisions.last_known_good
    Revisions.usable_root Revisions.find_marker Revisions.read_marker Revisions.parse_marker
    Revisions.check_marker Revisions.chop_feed Revisions.load Revisions.mark_last_known_good
    Revisions.store Pfctl.validate Pfctl.judge_validation Pfctl.load Pfctl.judge_load
    Transactions.begin Transactions.load Transactions.advance Transactions.clear
    Record.valid_transaction Record.phase_text Record.parse_phase Record.valid_transition
    Record.line Record.serialize Record.take_line Text.strip_prefix Record.parse_revision
    Record.parse_fields Record.parse Events.activation_event Events.load_event
    Events.transaction_event Events.make_validation_event
stores = refl

store-stored_example :
    (f : File) × (some candidate ≡ some f)
    × (f.private ≡ true)
    × ((Revisions.store calm_os 3 (some candidate) start).1.disk.revisions 3
        ≡ some (revision_file f.content))
store-stored_example = store-stored calm_os 3 (some candidate) start stores

loads : load_ok (Pfctl.load calm_os 2 start).0 ≡ true
unfolding Run.workflow Run.activate Run.carry_out Run.mark_target Run.commit_transaction
    Run.finish_commit Admission.check_request Admission.valid_request Admission.distinct_probes
    Admission.record_event Admission.audited Admission.authorize Admission.judge_authorization
    Admission.note_authorization Admission.resolve_previous Admission.choose_previous
    Admission.accept_previous Admission.refuse_previous Admission.resolve_target
    Admission.revalidate Undo.begin_transaction Undo.note_transaction Undo.announce_load
    Undo.clear_transaction Undo.abandon_transaction Undo.rollback_to_previous
    Undo.revalidate_previous Undo.reload_previous Undo.remark_previous Undo.restore_failed
    Undo.finish_rollback Trial.load_target Trial.advance_to Trial.run_probes Trial.run_probe
    Trial.confirm Trial.judge_confirmation Trial.note_confirmation Flow.◌>>=◌ Flow.pure Flow.lift
    Flow.asks Flow.assign Flow.return_with Flow.note_journal Flow.append Recovery.record_recovery
    Recovery.clear_pending Recovery.note_clear Recovery.report Recovery.clean_committed
    Recovery.recover_committed Recovery.clear_rolled_back Recovery.mark_rolled_back
    Recovery.load_rolled_back Recovery.recover_uncommitted Recovery.recover_transaction
    Recovery.dispatch_pending Recovery.recovery_workflow Recovery.recover_pending Journal.append
    Journal.has_required_fields Event.emplace Format.format Format.severity_text Format.escape_byte
    Format.escape Format.quoted Format.field Format.lowercase Format.starts_with Format.contains
    Format.any_within Format.is_sensitive_key Format.attribute_fields Text.text Text.eq_bytes
    Text.valid_identifier Decimal.to_string Decimal.from_chars Revisions.last_known_good
    Revisions.usable_root Revisions.find_marker Revisions.read_marker Revisions.parse_marker
    Revisions.check_marker Revisions.chop_feed Revisions.load Revisions.mark_last_known_good
    Revisions.store Pfctl.validate Pfctl.judge_validation Pfctl.load Pfctl.judge_load
    Transactions.begin Transactions.load Transactions.advance Transactions.clear
    Record.valid_transaction Record.phase_text Record.parse_phase Record.valid_transition
    Record.line Record.serialize Record.take_line Text.strip_prefix Record.parse_revision
    Record.parse_fields Record.parse Events.activation_event Events.load_event
    Events.transaction_event Events.make_validation_event
loads = refl

load-loaded_example :
    let s = (Pfctl.load calm_os 2 start).1 in
    (s.disk ≡ put_active 2 start.disk) × (s.past ≡ start.disk ∷ start.past)
load-loaded_example = load-loaded calm_os 2 start loads

load-AtMost_example : AtMost (put_active 2 start.disk) start (Pfctl.load calm_os 2 start).1
load-AtMost_example = load-AtMost calm_os 2 start
