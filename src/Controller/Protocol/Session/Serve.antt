-- ===== src/Controller/Protocol/Session/Serve.antt =====
-- `ControllerProtocolSession::serve`, src/core/controller/local_protocol.cpp, as its stages, the last
-- ones first: each stage ends the session or goes on to the next.
use sasd_gatehold.Prelude.{
  ℕ, Bool, true, false, not, ◌||◌, Option, none, some, [], String, ltb, ◌==◌, if◌then◌else◌,
}
use sasd_gatehold.Text.{Bytes, text}
use sasd_gatehold.Host.{Os, M, ◌>>=◌, pure, timestamp}
use sasd_gatehold.Logging.Event.{Event, Severity, info, warning, error}
use sasd_gatehold.Logging.Journal
use sasd_gatehold.Logging.Journal.{journal_ok}
use sasd_gatehold.Firewall.Activation.Types.{ActivationRequest, Service}
use sasd_gatehold.Controller.Privileged.Defs as Controller
use sasd_gatehold.Controller.Privileged.Defs.{ControllerState, ControllerActivationResult}
use sasd_gatehold.Controller.Protocol.Request.{
  RequestOperation, status, activate, ParsedRequest, parse_request,
}
use sasd_gatehold.Controller.Protocol.Frame.{
  IoStatus, FrameResult, read_frame, write_frame, is_completed,
}
use sasd_gatehold.Controller.Protocol.Response.{response_payload}
use sasd_gatehold.Controller.Protocol.Session.Defs.{
  PeerCredentialResult, credentials_ok, read_credentials, PeerCredentialPolicy, allows,
  ProtocolSessionStatus, peer_rejected, timed_out, invalid_request, audit_failed, io_error,
  ProtocolSessionResult, Socket, configure_socket, Session, maximum_io_timeout, session_result,
  io_failure, protocol_event, intent, anonymous, controller_protocol, is_timed_out,
  is_invalid_frame, operation_status, is_dispatched,
}

module _ (os : Os) (svc : Service) (socket : Socket) where
  abbrev pub append : Event → M Bool
  append e = do r ← Journal.append os e; pure (journal_ok r)

  -- `append(protocol_event(timestamp_source_(), ...))`
  unfoldable pub note :
      Severity → Bytes → Bytes → String → Bytes → Option PeerCredentialResult → M Bool
  note severity id operation outcome message credentials = do
    t ← timestamp os
    append (protocol_event t severity id operation outcome message credentials)

  abbrev session : ProtocolSessionResult → ControllerState → Bytes → Session
  session r state sent = record { result = r; state = state; sent = sent }

  -- Write a response; the result is `done`, or the failure if it could not be written.
  unfoldable pub respond :
      PeerCredentialResult → ControllerState → Bytes → ProtocolSessionResult → Session
  respond peer state response done =
      let w = write_frame response socket.departures in
      session (if is_completed w.status then done else io_failure peer) state w.bytes

  -- The response to a dispatched request. That it could not be written is an event, too.
  unfoldable pub answer :
      PeerCredentialResult
      → ControllerState
      → Bytes
      → Bytes
      → String
      → ProtocolSessionResult
      → M Session
  answer peer state request_id response words done = do
    let w = write_frame response socket.departures
    if is_completed w.status then pure (session done state w.bytes) else do
      _ ← note error (text "GH-IPC-2003") request_id "failed" (text words) (some peer)
      pure (session (io_failure peer) state w.bytes)

  -- A status request, on a ready journal.
  unfoldable pub serve_status : PeerCredentialResult → ControllerState → Bytes → M Session
  serve_status peer state id =
      answer peer state id
        (response_payload id (text "completed") state (text "GH-IPC-0002")
          (text "Controller status returned.") none)
        "Controller status response could not be transferred."
        (session_result ProtocolSessionStatus.completed (text "GH-IPC-0002")
          (text "Controller status request completed.") (some peer))

  -- From the result of the controller on.
  unfoldable pub report_activation :
      PeerCredentialResult → Bytes → ControllerActivationResult → M Session
  report_activation peer id a =
      answer peer a.state id
        (response_payload id (text (if is_dispatched a.status then "completed" else "rejected"))
          a.state a.event_id
          (text (
            if is_dispatched a.status
            then "Activation request completed."
            else "Activation request was not dispatched."))
          (some (text (operation_status a.activation))))
        "Controller activation response could not be transferred."
        (session_result ProtocolSessionStatus.completed a.event_id
          (text "Controller activation request completed.") (some peer))

  unfoldable pub serve_activation :
      PeerCredentialResult → ControllerState → Bytes → ActivationRequest → M Session
  serve_activation peer state id q = do
    a ← Controller.activate os svc q state
    report_activation peer id a

  -- By the operation. The source reads `*request.activation` for `activate`, with which the parser
  -- always gives an activation.
  unfoldable pub serve_operation :
      PeerCredentialResult
      → ControllerState
      → Bytes
      → RequestOperation
      → Option ActivationRequest
      → M Session
  serve_operation peer state id status activation = serve_status peer state id
  serve_operation peer state id activate none = serve_status peer state id
  serve_operation peer state id activate (some q) = serve_activation peer state id q

  -- From the intent on.
  unfoldable pub dispatch : PeerCredentialResult → ControllerState → ParsedRequest → M Session
  dispatch peer state r = do
    t ← timestamp os
    noted ← append (intent t r peer)
    if not noted
        then pure (
            respond peer state
              (response_payload r.request_id (text "error") state (text "GH-IPC-2004")
                (text "Controller request dispatch could not be audited.") none)
              (session_result audit_failed (text "GH-IPC-2004")
                (text "Controller request dispatch could not be audited.") (some peer)))
        else serve_operation peer state r.request_id r.operation r.activation

  -- A refusal: an event, a response and the result.
  unfoldable pub refuse :
      PeerCredentialResult
      → ControllerState
      → Severity
      → Bytes
      → String
      → Bytes
      → Bytes
      → ProtocolSessionResult
      → M Session
  refuse peer state severity id outcome event_message response_message done = do
    _ ← note severity id controller_protocol outcome event_message (some peer)
    pure (
        respond peer state
          (response_payload anonymous (text "rejected") state id response_message none) done)

  abbrev pub refuse_request : PeerCredentialResult → ControllerState → Bytes → Bytes → M Session
  refuse_request peer state id message =
      refuse peer state warning id "rejected" message message
        (session_result invalid_request id message (some peer))

  -- By the fields of the parse result.
  unfoldable pub serve_parsed :
      PeerCredentialResult
      → ControllerState
      → Bool
      → Bytes
      → Bytes
      → Option ParsedRequest
      → M Session
  serve_parsed peer state true id message (some r) = dispatch peer state r
  serve_parsed peer state true id message none = refuse_request peer state id message
  serve_parsed peer state false id message r = refuse_request peer state id message

  abbrev pub frame_event_id : IoStatus → Bytes
  frame_event_id s =
      if is_timed_out s
      then text "GH-IPC-2002"
      else if is_invalid_frame s
      then text "GH-IPC-1002"
      else text "GH-IPC-2003"

  abbrev pub frame_status : IoStatus → ProtocolSessionStatus
  frame_status s =
      if is_timed_out s then timed_out else if is_invalid_frame s then invalid_request else io_error

  unfoldable pub refuse_frame : PeerCredentialResult → ControllerState → IoStatus → M Session
  refuse_frame peer state s =
      let answered = text (
        if is_timed_out s
        then "Controller protocol request timed out."
        else "Controller protocol frame is invalid.") in
      refuse peer state (if is_timed_out s then warning else error) (frame_event_id s)
        (if is_timed_out s then "timed_out" else "rejected")
        (text (
          if is_timed_out s
          then "Controller protocol request timed out."
          else "Controller protocol frame could not be read."))
        answered (session_result (frame_status s) (frame_event_id s) answered (some peer))

  unfoldable pub serve_frame : PeerCredentialResult → ControllerState → FrameResult → M Session
  serve_frame peer state f =
      if not (is_completed f.status)
      then refuse_frame peer state f.status
      else let p = parse_request f.payload in
        serve_parsed peer state p.valid p.event_id p.message p.request

  -- The peer is allowed.
  unfoldable pub serve_authenticated : PeerCredentialResult → ControllerState → M Session
  serve_authenticated peer state = do
    noted ←
        note info (text "GH-IPC-0001") controller_protocol "authenticated"
          (text "Unix peer credentials were accepted.") (some peer)
    if not noted
        then pure (
            respond peer state
              (response_payload anonymous (text "error") state (text "GH-IPC-2004")
                (text "Controller protocol audit is unavailable.") none)
              (session_result audit_failed (text "GH-IPC-2004")
                (text "Peer authentication could not be audited.") (some peer)))
        else serve_frame peer state (read_frame socket.arrivals)

  unfoldable pub serve_peer :
      PeerCredentialPolicy → PeerCredentialResult → ControllerState → M Session
  serve_peer policy peer state =
      if not (credentials_ok peer)
      then (do
        _ ← note error peer.event_id controller_protocol "failed" peer.message none
        pure (
            respond peer state
              (response_payload anonymous (text "rejected") state peer.event_id
                (text "Peer credentials could not be verified.") none)
              (session_result peer_rejected peer.event_id peer.message (some peer))))
      else if not (allows policy peer)
      then refuse peer state warning (text "GH-IPC-1001") "rejected"
          (text "Unix peer is not allowed to use the controller protocol.")
          (text "Peer is not authorized for the controller protocol.")
          (session_result peer_rejected (text "GH-IPC-1001")
            (text "Unix peer is not allowed to use the controller protocol.") (some peer))
      else serve_authenticated peer state

  abbrev pub unusable : ℕ → Bool
  unusable io_timeout =
      not socket.connected
      || io_timeout == 0
      || ltb maximum_io_timeout io_timeout
      || not (configure_socket socket)

  unfoldable pub serve : PeerCredentialPolicy → ℕ → ControllerState → M Session
  serve policy io_timeout state =
      if unusable io_timeout
      then pure (
          session
            (session_result io_error (text "GH-IPC-2003")
              (text "Controller protocol socket or timeout is invalid.") none)
            state [])
      else serve_peer policy (read_credentials socket.peer) state
