-- ===== src/Controller/Protocol/Session/Defs.antt =====
-- What a session is made of, src/core/controller/local_protocol.cpp and
-- include/gatehold/controller/local_protocol.hpp. `Socket` is what the operating system answers to
-- the calls on the connected socket. A session reads one frame and writes one; the journal, the
-- controller and the disk are those of the world.
use sasd_gatehold.Prelude.{
  ℕ, Bool, true, false, ◌&&◌, Option, none, some, List, [], String, ◌==◌, if◌then◌else◌,
}
use sasd_gatehold.Text.{Bytes, text}
use sasd_gatehold.Text.Decimal.{to_string}
use sasd_gatehold.Logging.Event.{Event, Severity, info, with_attribute}
use sasd_gatehold.Firewall.Activation.Types.{ActivationRequest, ActivationResult}
use sasd_gatehold.Controller.Privileged.Defs.{ControllerState, ControllerDispatchStatus}
use sasd_gatehold.Controller.Protocol.Request.{RequestOperation, ParsedRequest}
use sasd_gatehold.Controller.Protocol.Frame as Frame
use sasd_gatehold.Controller.Protocol.Frame.{
  IoStatus, FrameResult, Arrival, Departure, read_frame, write_frame, is_completed,
}
use sasd_gatehold.Controller.Protocol.Response.{activation_status}

pub data PeerCredentialStatus : Type 0 where
  available unavailable : PeerCredentialStatus

pub record PeerCredentialResult : Type 0 where
  pub status : PeerCredentialStatus
  pub user_id : ℕ
  pub group_id : ℕ
  pub event_id : Bytes
  pub message : Bytes

-- `PeerCredentialResult::ok`.
abbrev pub credentials_ok : PeerCredentialResult → Bool
credentials_ok c = elim c.status [ available ↦ true | unavailable ↦ false ]

-- `PeerCredentialReader::read`, with the user and the group that the kernel gives.
abbrev pub read_credentials : Option (ℕ × ℕ) → PeerCredentialResult
read_credentials (some (uid, gid)) = record {
  status = available;
  user_id = uid;
  group_id = gid;
  event_id = text "GH-IPC-0001";
  message = text "Unix peer credentials were verified.";
}
read_credentials none = record {
  status = unavailable;
  user_id = 0;
  group_id = 0;
  event_id = text "GH-IPC-2001";
  message = text "Unix peer credentials could not be verified.";
}

pub record PeerCredentialPolicy : Type 0 where
  pub allowed_user_id : ℕ
  pub allowed_group_id : Option ℕ

abbrev group_allowed : Option ℕ → ℕ → Bool
group_allowed none gid = true
group_allowed (some g) gid = gid == g

abbrev pub allows : PeerCredentialPolicy → PeerCredentialResult → Bool
allows p c =
    credentials_ok c
    && (c.user_id == p.allowed_user_id)
    && group_allowed p.allowed_group_id c.group_id

pub data ProtocolSessionStatus : Type 0 where
  completed peer_rejected timed_out invalid_request audit_failed io_error : ProtocolSessionStatus

pub record ProtocolSessionResult : Type 0 where
  pub status : ProtocolSessionStatus
  pub event_id : Bytes
  pub message : Bytes
  pub peer_user_id : Option ℕ
  pub peer_group_id : Option ℕ

-- `ProtocolSessionResult::ok`.
abbrev pub session_ok : ProtocolSessionResult → Bool
session_ok r = elim r.status [ ProtocolSessionStatus.completed ↦ true | _ ↦ false ]

-- `fcntl` gives the outcomes of the four calls of `configure_socket`, in their order.
pub record Socket : Type 0 where
  pub connected : Bool
  pub fcntl : ℕ → Bool
  pub peer : Option (ℕ × ℕ)
  pub arrivals : List Arrival
  pub departures : List Departure

abbrev pub configure_socket : Socket → Bool
configure_socket s = s.fcntl 0 && s.fcntl 1 && s.fcntl 2 && s.fcntl 3

-- The result of the session, the state of the controller behind it, and the bytes sent.
pub record Session : Type 0 where
  pub result : ProtocolSessionResult
  pub state : ControllerState
  pub sent : Bytes

abbrev pub maximum_io_timeout : ℕ
maximum_io_timeout = 60000

abbrev known_peer : Option PeerCredentialResult → (PeerCredentialResult → ℕ) → Option ℕ
known_peer none f = none
known_peer (some c) f = if credentials_ok c then some (f c) else none

abbrev pub session_result :
    ProtocolSessionStatus → Bytes → Bytes → Option PeerCredentialResult → ProtocolSessionResult
session_result status id message credentials = record {
  status = status;
  event_id = id;
  message = message;
  peer_user_id = known_peer credentials (λ c. c.user_id);
  peer_group_id = known_peer credentials (λ c. c.group_id);
}

abbrev pub io_failure : PeerCredentialResult → ProtocolSessionResult
io_failure peer =
    session_result ProtocolSessionStatus.io_error (text "GH-IPC-2003")
      (text "Controller protocol response could not be transferred.") (some peer)

abbrev with_peer : Option PeerCredentialResult → Event → Event
with_peer none e = e
with_peer (some c) e =
    if credentials_ok c
    then with_attribute (text "peer_gid") (to_string c.group_id)
        (with_attribute (text "peer_uid") (to_string c.user_id) e)
    else e

unfoldable pub protocol_event :
    Bytes → Severity → Bytes → Bytes → String → Bytes → Option PeerCredentialResult → Event
protocol_event t severity id operation outcome message credentials = with_peer credentials (record {
  timestamp = t;
  severity = severity;
  event_id = id;
  component = text "controller-local-protocol";
  operation_id = operation;
  action = text "controller.protocol";
  outcome = text outcome;
  message = message;
  attributes = [];
})

abbrev pub is_status : RequestOperation → Bool
is_status RequestOperation.status = true
is_status RequestOperation.activate = false

abbrev with_revision : Option ActivationRequest → Event → Event
with_revision none e = e
with_revision (some q) e = with_attribute (text "revision") (to_string q.revision) e

-- The event that is written before a request is dispatched.
unfoldable pub intent : Bytes → ParsedRequest → PeerCredentialResult → Event
unfolding protocol_event
intent t request peer = with_revision request.activation (
    with_attribute (text "operation")
      (text (if is_status request.operation then "status" else "activate"))
      (protocol_event t info
        (text (if is_status request.operation then "GH-IPC-0002" else "GH-IPC-0003"))
        request.request_id "dispatching"
        (text (
          if is_status request.operation
          then "Controller status request is being dispatched."
          else "Controller activation request is being dispatched."))
        (some peer)))

abbrev pub anonymous : Bytes
anonymous = text "protocol-request"

abbrev pub controller_protocol : Bytes
controller_protocol = text "controller-protocol"

abbrev pub is_timed_out : IoStatus → Bool
is_timed_out Frame.timed_out = true
is_timed_out _ = false

abbrev pub is_invalid_frame : IoStatus → Bool
is_invalid_frame Frame.invalid_size = true
is_invalid_frame Frame.closed = true
is_invalid_frame _ = false

abbrev pub operation_status : Option ActivationResult → String
operation_status none = "not_dispatched"
operation_status (some a) = activation_status a.status

abbrev pub is_dispatched : ControllerDispatchStatus → Bool
is_dispatched ControllerDispatchStatus.completed = true
is_dispatched ControllerDispatchStatus.controller_not_ready = false
