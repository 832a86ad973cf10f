-- ===== src/Controller/Listener/Tests.antt =====
-- An admission of the listener, and the theorem applied to it.
use sasd_gatehold.Prelude.{◌≡◌, ◌⊎◌, refl, true, false, List, [], ◌∷◌}
use sasd_gatehold.Firewall.Activation.Service as Run
use sasd_gatehold.Firewall.Activation.Rollback as Undo
use sasd_gatehold.Firewall.Activation.Loading as Trial
use sasd_gatehold.Firewall.Activation.Flow as Flow
use sasd_gatehold.Firewall.Activation.Recovery as Recovery
use sasd_gatehold.Logging.Journal as Journal
use sasd_gatehold.Logging.Event as Event
use sasd_gatehold.Logging.Format.Defs as Format
use sasd_gatehold.Firewall.Revision.Store as Revisions
use sasd_gatehold.Firewall.Pfctl.Run as Pfctl
use sasd_gatehold.Firewall.Transaction.Store as Transactions
use sasd_gatehold.Firewall.Transaction.Record as Record
use sasd_gatehold.Firewall.Activation.Events as Events
use sasd_gatehold.Controller.Privileged.Defs as Controller
use sasd_gatehold.Controller.Protocol.Session.Defs as Session
use sasd_gatehold.Controller.Protocol.Session.Serve as Serve
use sasd_gatehold.Controller.Protocol.Response as Response
use sasd_gatehold.Text as Text
use sasd_gatehold.Text.Decimal as Decimal
use sasd_gatehold.Firewall.Activation.Admission as Admission
use sasd_gatehold.Controller.Protocol.Request as Request
use sasd_gatehold.Controller.Protocol.Frame as Frame
use sasd_gatehold.Firewall.Tests.{calm_os, willing, start}
use sasd_gatehold.Controller.Limiter.Defs as Limiter
use sasd_gatehold.Controller.Limiter.Defs.{limiter}
use sasd_gatehold.Controller.Privileged.Defs.{ControllerState}
use sasd_gatehold.Controller.Protocol.Request.RoundTrip.{print_request}
use sasd_gatehold.Controller.Protocol.Session.Serve.{serve}
use sasd_gatehold.Controller.Protocol.Frame.{read_frame, write_frame}
use sasd_gatehold.Controller.Protocol.Request.{parse_request}
use sasd_gatehold.Controller.Protocol.Tests.{client, policy}
use sasd_gatehold.Controller.Listener.Defs as Listener
use sasd_gatehold.Controller.Listener.Serve as Listening
use sasd_gatehold.Controller.Listener.Serve.{
  Round, connected, LocalControllerListener, serve_one, valid_timeout,
}
use sasd_gatehold.Controller.Listener.Gate.{Quiet, Admitted, serve_one-Admitted}

abbrev listener : LocalControllerListener
listener = record {
  listening = true;
  owns_socket_path = true;
  serving = false;
  admission_rate_limiter = limiter (record { maximum_admissions = 2; window = 100 });
}

abbrev rounds : List Round
rounds = Round.retried ∷ connected client 5 ∷ []

admission_commits :
    let x =
      serve_one calm_os willing policy 1 rounds 250 5000 (ControllerState.ready, listener) start in
    (x.0.0.status ≡ Listener.session_completed)
    × (x.1.disk.active ≡ 2)
    × (x.0.1.1.admission_rate_limiter.admissions ≡ 5 ∷ [])
unfolding Run.workflow Run.activate Run.carry_out Run.mark_target Run.commit_transaction
    Run.finish_commit Admission.check_request Admission.valid_request Admission.distinct_probes
    Admission.record_event Admission.audited Admission.authorize Admission.judge_authorization
    Admission.note_authorization Admission.resolve_previous Admission.choose_previous
    Admission.accept_previous Admission.refuse_previous Admission.resolve_target
    Admission.revalidate Undo.begin_transaction Undo.note_transaction Undo.announce_load
    Undo.clear_transaction Undo.abandon_transaction Undo.rollback_to_previous
    Undo.revalidate_previous Undo.reload_previous Undo.remark_previous Undo.restore_failed
    Undo.finish_rollback Trial.load_target Trial.advance_to Trial.run_probes Trial.run_probe
    Trial.confirm Trial.judge_confirmation Trial.note_confirmation Flow.◌>>=◌ Flow.pure Flow.lift
    Flow.asks Flow.assign Flow.return_with Flow.note_journal Flow.append Recovery.record_recovery
    Recovery.clear_pending Recovery.note_clear Recovery.report Recovery.clean_committed
    Recovery.recover_committed Recovery.clear_rolled_back Recovery.mark_rolled_back
    Recovery.load_rolled_back Recovery.recover_uncommitted Recovery.recover_transaction
    Recovery.dispatch_pending Recovery.recovery_workflow Recovery.recover_pending Journal.append
    Journal.has_required_fields Event.emplace Format.format Format.severity_text Format.escape_byte
    Format.escape Format.quoted Format.field Format.lowercase Format.starts_with Format.contains
    Format.any_within Format.is_sensitive_key Format.attribute_fields Text.text Text.eq_bytes
    Text.valid_identifier Decimal.to_string Decimal.from_chars Revisions.last_known_good
    Revisions.usable_root Revisions.find_marker Revisions.read_marker Revisions.parse_marker
    Revisions.check_marker Revisions.chop_feed Revisions.load Revisions.mark_last_known_good
    Revisions.store Pfctl.validate Pfctl.judge_validation Pfctl.load Pfctl.judge_load
    Transactions.begin Transactions.load Transactions.advance Transactions.clear
    Record.valid_transaction Record.phase_text Record.parse_phase Record.valid_transition
    Record.line Record.serialize Record.take_line Text.strip_prefix Record.parse_revision
    Record.parse_fields Record.parse Events.activation_event Events.load_event
    Events.transaction_event Events.make_validation_event Controller.note
    Controller.judge_activation Controller.activate Request.parse_request Request.split_lines
    Request.split_from Request.acceptable_line Request.has_byte Request.parse_lines
    Request.identifier_value Request.field_value Request.parse_operation Request.parse_activation
    Request.activation_fields Request.parse_revision Request.parse_timeout Frame.read_exact
    Frame.read_payload Frame.read_frame Frame.write_exact Frame.write_frame
    Response.response_payload Session.protocol_event Session.intent Serve.note Serve.respond
    Serve.answer Serve.serve_status Serve.report_activation Serve.serve_activation
    Serve.serve_operation Serve.dispatch Serve.refuse Serve.serve_parsed Serve.refuse_frame
    Serve.serve_frame Serve.serve_authenticated Serve.serve_peer Serve.serve print_request
    Text.print_lines Limiter.try_admit Limiter.drop_expired Listening.note Listening.serve_session
    Listening.admit Listening.fail_accept Listening.accept_loop serve_one
admission_commits = (refl, refl, refl)

serve_one-Admitted_example :
    let x =
      serve_one calm_os willing policy 1 rounds 250 5000 (ControllerState.ready, listener) start in
    Quiet calm_os willing policy 1 start ControllerState.ready x
    ⊎ ((listener.listening ≡ true)
        × (listener.serving ≡ false)
        × (valid_timeout 250 ≡ true)
        × (valid_timeout 5000 ≡ true)
        × Admitted calm_os willing policy 1 rounds 5000 ControllerState.ready listener start x)
serve_one-Admitted_example =
    serve_one-Admitted calm_os willing policy 1 rounds 250 5000 ControllerState.ready listener start
