-- ===== src/Daemon/Tests.antt =====
-- Runs of the read-only daemon, and the theorems on it applied to them.
use sasd_gatehold.Prelude.{◌≡◌, ◌==◌, refl, true, false, none, List, [], ◌∷◌}
use sasd_gatehold.Firewall.Activation.Service as Run
use sasd_gatehold.Firewall.Activation.Rollback as Undo
use sasd_gatehold.Firewall.Activation.Loading as Trial
use sasd_gatehold.Firewall.Activation.Flow as Flow
use sasd_gatehold.Firewall.Activation.Recovery as Recovery
use sasd_gatehold.Logging.Journal as Journal
use sasd_gatehold.Logging.Event as Event
use sasd_gatehold.Logging.Format.Defs as Format
use sasd_gatehold.Firewall.Revision.Store as Revisions
use sasd_gatehold.Firewall.Pfctl.Run as Pfctl
use sasd_gatehold.Firewall.Transaction.Store as Transactions
use sasd_gatehold.Firewall.Transaction.Record as Record
use sasd_gatehold.Firewall.Activation.Events as Events
use sasd_gatehold.Controller.Privileged.Defs as Controller
use sasd_gatehold.Controller.Protocol.Session.Defs as Session
use sasd_gatehold.Controller.Protocol.Session.Serve as Serve
use sasd_gatehold.Controller.Protocol.Response as Response
use sasd_gatehold.Text as Text
use sasd_gatehold.Text.Decimal as Decimal
use sasd_gatehold.Firewall.Activation.Admission as Admission
use sasd_gatehold.Controller.Protocol.Request as Request
use sasd_gatehold.Controller.Protocol.Frame as Frame
use sasd_gatehold.Firewall.Tests.{calm_os, request, start}
use sasd_gatehold.Controller.Limiter.Defs as Limiter
use sasd_gatehold.Controller.Limiter.Defs.{limiter}
use sasd_gatehold.Controller.Privileged.Defs.{ControllerState}
use sasd_gatehold.Controller.Protocol.Request.RoundTrip.{print_request}
use sasd_gatehold.Controller.Protocol.Session.Serve.{serve}
use sasd_gatehold.Controller.Protocol.Frame.{read_frame, write_frame}
use sasd_gatehold.Controller.Protocol.Request.{parse_request}
use sasd_gatehold.Controller.Protocol.Tests.{client, policy}
use sasd_gatehold.Controller.Listener.Defs as Listener
use sasd_gatehold.Controller.Listener.Defs.{
  LocalListenerStatus, LocalListenerResult, ControllerConnectionAcceptor,
}
use sasd_gatehold.Controller.Service.Defs.{ControllerServiceConfig, stopped, service_result}
use sasd_gatehold.Controller.Service.Loop.{Loop, loop}
use sasd_gatehold.Controller.Listener.Serve as Listening
use sasd_gatehold.Controller.Listener.Serve.{
  Round, connected, LocalControllerListener, serve_one, valid_timeout,
}
use sasd_gatehold.Firewall.Activation.Rules.{core}
use sasd_gatehold.Daemon.ReadOnly as Policy
use sasd_gatehold.Daemon.ReadOnly.{read_only_service, Refused, activate-Refused}
use sasd_gatehold.Daemon.Reach.{
  Harmless, serve_one-Harmless, Serves, controller_after, loop-Harmless,
}

abbrev listener : LocalControllerListener
listener = record {
  listening = true;
  owns_socket_path = true;
  serving = false;
  admission_rate_limiter = limiter (record { maximum_admissions = 2; window = 100 });
}

abbrev rounds : List Round
rounds = Round.retried ∷ connected client 5 ∷ []

-- A valid activation over a socket is served, and denied.
admission_denied :
    let x =
      serve_one calm_os read_only_service policy 1 rounds 250 5000
        (ControllerState.ready, listener)
        start in
    (x.0.0.status ≡ Listener.session_completed)
    × (x.0.1.0 ≡ ControllerState.ready)
    × (x.1.disk.active ≡ 1)
unfolding Policy.authorize_none Run.workflow Run.activate Run.carry_out Run.mark_target
    Run.commit_transaction Run.finish_commit Admission.check_request Admission.valid_request
    Admission.distinct_probes Admission.record_event Admission.audited Admission.authorize
    Admission.judge_authorization Admission.note_authorization Admission.resolve_previous
    Admission.choose_previous Admission.accept_previous Admission.refuse_previous
    Admission.resolve_target Admission.revalidate Undo.begin_transaction Undo.note_transaction
    Undo.announce_load Undo.clear_transaction Undo.abandon_transaction Undo.rollback_to_previous
    Undo.revalidate_previous Undo.reload_previous Undo.remark_previous Undo.restore_failed
    Undo.finish_rollback Trial.load_target Trial.advance_to Trial.run_probes Trial.run_probe
    Trial.confirm Trial.judge_confirmation Trial.note_confirmation Flow.◌>>=◌ Flow.pure Flow.lift
    Flow.asks Flow.assign Flow.return_with Flow.note_journal Flow.append Recovery.record_recovery
    Recovery.clear_pending Recovery.note_clear Recovery.report Recovery.clean_committed
    Recovery.recover_committed Recovery.clear_rolled_back Recovery.mark_rolled_back
    Recovery.load_rolled_back Recovery.recover_uncommitted Recovery.recover_transaction
    Recovery.dispatch_pending Recovery.recovery_workflow Recovery.recover_pending Journal.append
    Journal.has_required_fields Event.emplace Format.format Format.severity_text Format.escape_byte
    Format.escape Format.quoted Format.field Format.lowercase Format.starts_with Format.contains
    Format.any_within Format.is_sensitive_key Format.attribute_fields Text.text Text.eq_bytes
    Text.valid_identifier Decimal.to_string Decimal.from_chars Revisions.last_known_good
    Revisions.usable_root Revisions.find_marker Revisions.read_marker Revisions.parse_marker
    Revisions.check_marker Revisions.chop_feed Revisions.load Revisions.mark_last_known_good
    Revisions.store Pfctl.validate Pfctl.judge_validation Pfctl.load Pfctl.judge_load
    Transactions.begin Transactions.load Transactions.advance Transactions.clear
    Record.valid_transaction Record.phase_text Record.parse_phase Record.valid_transition
    Record.line Record.serialize Record.take_line Text.strip_prefix Record.parse_revision
    Record.parse_fields Record.parse Events.activation_event Events.load_event
    Events.transaction_event Events.make_validation_event Controller.note
    Controller.judge_activation Controller.activate Request.parse_request Request.split_lines
    Request.split_from Request.acceptable_line Request.has_byte Request.parse_lines
    Request.identifier_value Request.field_value Request.parse_operation Request.parse_activation
    Request.activation_fields Request.parse_revision Request.parse_timeout Frame.read_exact
    Frame.read_payload Frame.read_frame Frame.write_exact Frame.write_frame
    Response.response_payload Session.protocol_event Session.intent Serve.note Serve.respond
    Serve.answer Serve.serve_status Serve.report_activation Serve.serve_activation
    Serve.serve_operation Serve.dispatch Serve.refuse Serve.serve_parsed Serve.refuse_frame
    Serve.serve_frame Serve.serve_authenticated Serve.serve_peer Serve.serve print_request
    Text.print_lines Limiter.try_admit Limiter.drop_expired Listening.note Listening.serve_session
    Listening.admit Listening.fail_accept Listening.accept_loop serve_one
admission_denied = (refl, refl, refl)

activate-Refused_example :
    Refused calm_os request start (core (Run.activate calm_os read_only_service request start))
activate-Refused_example = activate-Refused calm_os request start

serve_one-Harmless_example :
    let x =
      serve_one calm_os read_only_service policy 1 rounds 250 5000
        (ControllerState.ready, listener)
        start in
    Harmless calm_os start ControllerState.ready x.1 x.0.1.0
serve_one-Harmless_example =
    serve_one-Harmless calm_os policy 1 rounds 250 5000 ControllerState.ready listener start

abbrev answer : LocalListenerStatus → LocalListenerResult
answer s = record { status = s; event_id = []; message = []; session = none }

abbrev config : ControllerServiceConfig
config = record {
  accept_poll_interval = 250;
  session_io_timeout = 5000;
  maximum_consecutive_listener_errors = 3;
}

-- The source's listener, over the same connections at every admission.
abbrev acceptor : ControllerConnectionAcceptor LocalControllerListener
acceptor = record {
  start = λ l w. ((answer Listener.listening, l), w);
  serve_one = λ p q x w.
      let y = serve_one calm_os read_only_service policy 1 rounds p q x w in
      ((answer y.0.0.status, y.0.1), y.1);
  stop = λ l w. ((answer Listener.stopped, l), w);
}

acceptor-Serves : Serves calm_os acceptor
acceptor-Serves p q x w = (policy, 1, rounds, x.1, (refl, refl))

abbrev opening : Loop LocalControllerListener
opening = record {
  output = service_result stopped [] [] ControllerState.ready;
  consecutive_errors = 0;
  rate_limit_audited = false;
  shared = (ControllerState.ready, listener);
}

loop-Harmless_example :
    let r = loop calm_os acceptor config (λ k. k == 3) 5 1 opening start in
    Harmless calm_os start ControllerState.ready r.1 (controller_after ControllerState.ready r.0)
loop-Harmless_example =
    loop-Harmless calm_os acceptor config acceptor-Serves (λ k. k == 3) 5 1 opening start
