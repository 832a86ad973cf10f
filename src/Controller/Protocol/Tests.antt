-- ===== src/Controller/Protocol/Tests.antt =====
-- Requests, frames and sessions of the local protocol, and the theorems applied to them.
use sasd_gatehold.Prelude.{
  ◌≤◌, ◌≡◌, ◌⊎◌, refl, true, false, none, some, List, [], ◌∷◌, arith, length,
}
use sasd_gatehold.Firewall.Activation.Service as Run
use sasd_gatehold.Firewall.Activation.Rollback as Undo
use sasd_gatehold.Firewall.Activation.Loading as Trial
use sasd_gatehold.Firewall.Activation.Flow as Flow
use sasd_gatehold.Firewall.Activation.Recovery as Recovery
use sasd_gatehold.Logging.Journal as Journal
use sasd_gatehold.Logging.Event as Event
use sasd_gatehold.Logging.Format.Defs as Format
use sasd_gatehold.Firewall.Revision.Store as Revisions
use sasd_gatehold.Firewall.Pfctl.Run as Pfctl
use sasd_gatehold.Firewall.Transaction.Store as Transactions
use sasd_gatehold.Firewall.Transaction.Record as Record
use sasd_gatehold.Firewall.Activation.Events as Events
use sasd_gatehold.Controller.Privileged.Defs as Controller
use sasd_gatehold.Controller.Protocol.Session.Defs as Session
use sasd_gatehold.Controller.Protocol.Session.Serve as Serve
use sasd_gatehold.Controller.Protocol.Response as Response
use sasd_gatehold.Text as Text
use sasd_gatehold.Text.{Bytes, text}
use sasd_gatehold.Text.Decimal as Decimal
use sasd_gatehold.Text.Decimal.{max_u64}
use sasd_gatehold.Firewall.Activation.Admission as Admission
use sasd_gatehold.Firewall.Tests.{calm_os, request, willing, start}
use sasd_gatehold.Controller.Privileged.Defs.{ControllerState}
use sasd_gatehold.Controller.Protocol.Request as Request
use sasd_gatehold.Controller.Protocol.Request.{parse_request}
use sasd_gatehold.Controller.Protocol.Request.RoundTrip.{
  ask_activation, print_request, parsed, IsSendable, parse_request-print_request,
}
use sasd_gatehold.Controller.Protocol.Request.Sound.{Judged, parse_request-Judged}
use sasd_gatehold.Controller.Protocol.Frame as Frame
use sasd_gatehold.Controller.Protocol.Frame.{
  Arrival, received, Departure, accepted, read_frame, write_frame, is_completed, header,
}
use sasd_gatehold.Controller.Protocol.Frame.Reassembly.{
  stream, read_frame_bound, read_frame-write_frame,
}
use sasd_gatehold.Controller.Protocol.Session.Defs.{PeerCredentialPolicy, Socket}
use sasd_gatehold.Controller.Protocol.Session.Serve.{serve}
use sasd_gatehold.Controller.Protocol.Session.Gate.{Quiet, Dispatched, serve-Dispatched}
use sasd_gatehold.Controller.Protocol.Session.Status.{Explained, serve-Explained}

abbrev pub request_id : Bytes
request_id = text "request-activate-42"

request-IsSendable : IsSendable (ask_activation request_id request)
unfolding Text.valid_identifier Admission.valid_request Text.text
request-IsSendable = (refl, refl, omega arith)

parse_request-print_request_example :
    parse_request (print_request (ask_activation request_id request))
    ≡ parsed (ask_activation request_id request)
parse_request-print_request_example =
    parse_request-print_request (ask_activation request_id request) request-IsSendable

abbrev reordered : Bytes
reordered = text "gatehold-controller-v1\noperation=status\nrequest_id=a\n"

reordered_refused : parse_request reordered ≡ Request.malformed
unfolding Request.parse_request Request.split_lines Request.split_from Request.acceptable_line
    Request.has_byte Request.parse_lines Request.identifier_value Request.field_value Text.eq_bytes
    Text.text Text.strip_prefix
reordered_refused = refl

parse_request-Judged_example : Judged (parse_request reordered)
parse_request-Judged_example = parse_request-Judged reordered

abbrev departures : List Departure
departures = accepted 2 ∷ Departure.retried ∷ accepted 9 ∷ accepted 2 ∷ accepted 9 ∷ []

abbrev pieces : List Arrival
pieces =
    received (0 ∷ []) ∷ Arrival.retried ∷ received (0 ∷ 0 ∷ 3 ∷ 7 ∷ []) ∷ received (8 ∷ 9 ∷ []) ∷ []

written : is_completed (write_frame (7 ∷ 8 ∷ 9 ∷ []) departures).status ≡ true
unfolding write_frame Frame.write_exact
written = refl

pieces_written : stream pieces ≡ (write_frame (7 ∷ 8 ∷ 9 ∷ []) departures).bytes
unfolding write_frame Frame.write_exact
pieces_written = refl

read_frame-write_frame_example :
    read_frame pieces ≡ record { status = Frame.completed; payload = 7 ∷ 8 ∷ 9 ∷ [] }
read_frame-write_frame_example =
    read_frame-write_frame (7 ∷ 8 ∷ 9 ∷ []) departures pieces written (refl, (refl, (refl, tt)))
      pieces_written

-- A peer that announces 4097 bytes.
abbrev oversize : List Arrival
oversize = received (0 ∷ 0 ∷ 16 ∷ 1 ∷ 7 ∷ []) ∷ []

oversize_refused : read_frame oversize ≡ record { status = Frame.invalid_size; payload = [] }
unfolding read_frame Frame.read_payload Frame.read_exact
oversize_refused = refl

abbrev pub policy : PeerCredentialPolicy
policy = record { allowed_user_id = 1000; allowed_group_id = some 100 }

abbrev pub client : Socket
client = record {
  connected = true;
  fcntl = λ n. true;
  peer = some (1000, 100);
  arrivals =
      received (0 ∷ 0 ∷ 0 ∷ length (print_request (ask_activation request_id request)) ∷ [])
      ∷ received (print_request (ask_activation request_id request))
      ∷ [];
  departures = accepted 4096 ∷ accepted 4096 ∷ [];
}

session_commits :
    let x = serve calm_os willing client policy 5000 ControllerState.ready start in
    (x.0.result.status ≡ Session.completed) × (x.1.disk.active ≡ 2) × (x.1.disk.pending ≡ none)
unfolding Run.workflow Run.activate Run.carry_out Run.mark_target Run.commit_transaction
    Run.finish_commit Admission.check_request Admission.valid_request Admission.distinct_probes
    Admission.record_event Admission.audited Admission.authorize Admission.judge_authorization
    Admission.note_authorization Admission.resolve_previous Admission.choose_previous
    Admission.accept_previous Admission.refuse_previous Admission.resolve_target
    Admission.revalidate Undo.begin_transaction Undo.note_transaction Undo.announce_load
    Undo.clear_transaction Undo.abandon_transaction Undo.rollback_to_previous
    Undo.revalidate_previous Undo.reload_previous Undo.remark_previous Undo.restore_failed
    Undo.finish_rollback Trial.load_target Trial.advance_to Trial.run_probes Trial.run_probe
    Trial.confirm Trial.judge_confirmation Trial.note_confirmation Flow.◌>>=◌ Flow.pure Flow.lift
    Flow.asks Flow.assign Flow.return_with Flow.note_journal Flow.append Recovery.record_recovery
    Recovery.clear_pending Recovery.note_clear Recovery.report Recovery.clean_committed
    Recovery.recover_committed Recovery.clear_rolled_back Recovery.mark_rolled_back
    Recovery.load_rolled_back Recovery.recover_uncommitted Recovery.recover_transaction
    Recovery.dispatch_pending Recovery.recovery_workflow Recovery.recover_pending Journal.append
    Journal.has_required_fields Event.emplace Format.format Format.severity_text Format.escape_byte
    Format.escape Format.quoted Format.field Format.lowercase Format.starts_with Format.contains
    Format.any_within Format.is_sensitive_key Format.attribute_fields Text.text Text.eq_bytes
    Text.valid_identifier Decimal.to_string Decimal.from_chars Revisions.last_known_good
    Revisions.usable_root Revisions.find_marker Revisions.read_marker Revisions.parse_marker
    Revisions.check_marker Revisions.chop_feed Revisions.load Revisions.mark_last_known_good
    Revisions.store Pfctl.validate Pfctl.judge_validation Pfctl.load Pfctl.judge_load
    Transactions.begin Transactions.load Transactions.advance Transactions.clear
    Record.valid_transaction Record.phase_text Record.parse_phase Record.valid_transition
    Record.line Record.serialize Record.take_line Text.strip_prefix Record.parse_revision
    Record.parse_fields Record.parse Events.activation_event Events.load_event
    Events.transaction_event Events.make_validation_event Controller.note
    Controller.judge_activation Controller.activate Request.parse_request Request.split_lines
    Request.split_from Request.acceptable_line Request.has_byte Request.parse_lines
    Request.identifier_value Request.field_value Request.parse_operation Request.parse_activation
    Request.activation_fields Request.parse_revision Request.parse_timeout Frame.read_exact
    Frame.read_payload Frame.read_frame Frame.write_exact Frame.write_frame
    Response.response_payload Session.protocol_event Session.intent Serve.note Serve.respond
    Serve.answer Serve.serve_status Serve.report_activation Serve.serve_activation
    Serve.serve_operation Serve.dispatch Serve.refuse Serve.serve_parsed Serve.refuse_frame
    Serve.serve_frame Serve.serve_authenticated Serve.serve_peer Serve.serve print_request
    Text.print_lines
session_commits = (refl, refl, refl)

serve-Dispatched_example :
    let x = serve calm_os willing client policy 5000 ControllerState.ready start in
    Quiet calm_os willing client start ControllerState.ready x
    ⊎ Dispatched calm_os willing client policy ControllerState.ready start x
serve-Dispatched_example =
    serve-Dispatched calm_os willing client policy 5000 ControllerState.ready start

serve-Explained_example :
    Explained calm_os willing client policy
      (serve calm_os willing client policy 5000 ControllerState.ready start).0
serve-Explained_example =
    serve-Explained calm_os willing client policy 5000 ControllerState.ready start

read_frame_bound_example :
    let r = read_frame oversize in
    (is_completed r.status ≡ true → (1 ≤ length r.payload) × (length r.payload ≤ 4096))
    × (is_completed r.status ≡ false → r.payload ≡ [])
read_frame_bound_example = read_frame_bound oversize
