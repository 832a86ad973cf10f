-- ===== src/Controller/Protocol/Session/Status.antt =====
-- What the status of a session says, src/core/controller/local_protocol.cpp.
use sasd_gatehold.Prelude.{
  ℕ, length, ◌++◌, ◌≤◌, ◌≡◌, ◌⊎◌, inl, inr, refl, Bool, true, false, not, Option, none, some, arith,
  String, if-elim, Bool-cases, is_some, sym, ◌∙◌,
}
use sasd_gatehold.Text.{Bytes, text}
use sasd_gatehold.Host.{Os, World, M, tick}
use sasd_gatehold.Logging.Event.{Severity, info}
use sasd_gatehold.Firewall.Activation.Types.{ActivationRequest, Service}
use sasd_gatehold.Controller.Privileged.Defs.{ControllerState}
use sasd_gatehold.Controller.Protocol.Request.{
  RequestOperation, status, activate, ParsedRequest, ParseResult, parse_request,
}
use sasd_gatehold.Controller.Protocol.Request.Sound.{parse_request-Judged}
use sasd_gatehold.Controller.Protocol.Frame as Frame
use sasd_gatehold.Controller.Protocol.Frame.{
  IoStatus, FrameResult, read_frame, is_completed, write_frame, header, maximum_payload_size,
}
use sasd_gatehold.Controller.Protocol.Frame.Reassembly.{write_frame-completed}
use sasd_gatehold.Controller.Protocol.Session.Defs.{
  PeerCredentialResult, read_credentials, PeerCredentialPolicy, allows, credentials_ok,
  ProtocolSessionStatus, completed, peer_rejected, timed_out, invalid_request, audit_failed,
  io_error, ProtocolSessionResult, Socket, Session, controller_protocol, intent, is_invalid_frame,
}
use sasd_gatehold.Controller.Protocol.Session.Serve.{
  note, append, respond, answer, serve_status, report_activation, serve_activation, serve_operation,
  dispatch, refuse, frame_status, serve_parsed, refuse_frame, serve_frame, serve_authenticated,
  serve_peer, serve, unusable,
}

module _ (os : Os) (svc : Service) (socket : Socket) (policy : PeerCredentialPolicy) where
  abbrev peer_result : PeerCredentialResult
  peer_result = read_credentials socket.peer

  abbrev frame : FrameResult
  frame = read_frame socket.arrivals

  abbrev result : ParseResult
  result = parse_request frame.payload

  -- What each status says of the peer, the frame and the request.
  pub Means : ProtocolSessionStatus → Type 0
  Means completed =
      (allows policy peer_result ≡ true)
      × (is_completed frame.status ≡ true)
      × (result.valid ≡ true)
  Means peer_rejected = allows policy peer_result ≡ false
  Means timed_out = (allows policy peer_result ≡ true) × (frame.status ≡ Frame.timed_out)
  Means invalid_request =
      (allows policy peer_result ≡ true)
      × ((is_invalid_frame frame.status ≡ true)
          ⊎ ((is_completed frame.status ≡ true) × (result.valid ≡ false)))
  Means audit_failed = allows policy peer_result ≡ true
  Means io_error = Unit

  abbrev IsFrame : Bytes → Bytes → Type 0
  IsFrame sent p =
      (sent ≡ header (length p) ++ p) × (1 ≤ length p) × (length p ≤ maximum_payload_size)

  -- One whole frame was sent, unless the session failed at the socket.
  abbrev pub Answered : Session → Type 0
  Answered s = (s.result.status ≡ io_error) ⊎ ((p : Bytes) × IsFrame s.sent p)

  abbrev pub Explained : Session → Type 0
  Explained s = Means s.result.status × Answered s

  abbrev Ends : M Session → Type 0
  Ends m = (w : World) → Explained (m w).0

  io_error-Means : Means io_error
  unfolding Means
  io_error-Means = tt

  respond-Explained :
      (peer : PeerCredentialResult) (state : ControllerState) (response : Bytes)
      (done : ProtocolSessionResult)
      → Means done.status
      → Explained (respond os svc socket peer state response done)
  unfolding respond
  respond-Explained peer state response done h =
      let written = write_frame response socket.departures in
      elim (Bool-cases (is_completed written.status)) [
        | inl whole ↦
            rw whole (h, inr (response, write_frame-completed response socket.departures whole))
        | inr broken ↦ rw broken (io_error-Means, inl refl)
      ]

  answer-Explained :
      (peer : PeerCredentialResult) (state : ControllerState) (id response : Bytes) (words : String)
      (done : ProtocolSessionResult)
      → Means done.status
      → Ends (answer os svc socket peer state id response words done)
  unfolding answer
  answer-Explained peer state id response words done h w =
      let written = write_frame response socket.departures in
      elim (Bool-cases (is_completed written.status)) [
        | inl whole ↦
            rw whole (h, inr (response, write_frame-completed response socket.departures whole))
        | inr broken ↦ rw broken (io_error-Means, inl refl)
      ]

  refuse-Explained :
      (peer : PeerCredentialResult) (state : ControllerState) (s : Severity) (id : Bytes)
      (outcome : String) (m r : Bytes) (done : ProtocolSessionResult)
      → Means done.status
      → Ends (refuse os svc socket peer state s id outcome m r done)
  unfolding refuse
  refuse-Explained peer state s id outcome m r done h w = respond-Explained peer state _ done h

  serve_operation-Explained :
      (peer : PeerCredentialResult) (state : ControllerState) (id : Bytes)
      (operation : RequestOperation) (activation : Option ActivationRequest)
      → Means completed
      → Ends (serve_operation os svc socket peer state id operation activation)
  unfolding serve_operation serve_status serve_activation report_activation
  serve_operation-Explained peer state id status activation h w =
      answer-Explained peer state id _ _ _ h w
  serve_operation-Explained peer state id activate none h w =
      answer-Explained peer state id _ _ _ h w
  serve_operation-Explained peer state id activate (some q) h w =
      answer-Explained peer _ id _ _ _ h _

  peer_rejected-Means : allows policy peer_result ≡ false → Means peer_rejected
  unfolding Means
  peer_rejected-Means h = h

  audit_failed-Means : allows policy peer_result ≡ true → Means audit_failed
  unfolding Means
  audit_failed-Means h = h

  dispatch-Explained :
      (peer : PeerCredentialResult) (state : ControllerState) (r : ParsedRequest)
      → allows policy peer_result ≡ true
      → Means completed
      → Ends (dispatch os svc socket peer state r)
  unfolding dispatch
  dispatch-Explained peer state r allowed h w =
      let n = append os svc socket (intent (os.timestamp w.clock) r peer) (tick w) in
      elim (Bool-cases n.0) [
        | inl noted ↦
            rw noted
              (serve_operation-Explained peer state r.request_id r.operation r.activation h n.1)
        | inr failed ↦ rw failed (respond-Explained peer state _ _ (audit_failed-Means allowed))
      ]

  serve_parsed-Explained :
      (peer : PeerCredentialResult) (state : ControllerState) (valid : Bool) (id message : Bytes)
      (request : Option ParsedRequest)
      → allows policy peer_result ≡ true
      → (valid ≡ true → Means completed)
      → Means invalid_request ⊎ ((valid ≡ true) × (is_some request ≡ true))
      → Ends (serve_parsed os svc socket peer state valid id message request)
  unfolding serve_parsed
  serve_parsed-Explained peer state true id message (some r) allowed done bad w =
      dispatch-Explained peer state r allowed (done refl) w
  serve_parsed-Explained peer state true id message none allowed done (inl bad) w =
      refuse-Explained peer state _ _ _ _ _ _ bad w
  serve_parsed-Explained peer state true id message none allowed done (inr good) w = ground arith
  serve_parsed-Explained peer state false id message r allowed done (inl bad) w =
      refuse-Explained peer state _ _ _ _ _ _ bad w
  serve_parsed-Explained peer state false id message r allowed done (inr good) w = ground arith

  frame_status-Means :
      allows policy peer_result ≡ true
      → is_completed frame.status ≡ false
      → Means (frame_status os svc socket frame.status)
  unfolding Means
  frame_status-Means allowed broken = ground arith

  -- The parser gives a request where it says that the text is valid.
  result-cases :
      allows policy peer_result ≡ true
      → is_completed frame.status ≡ true
      → Means invalid_request ⊎ ((result.valid ≡ true) × (is_some result.request ≡ true))
  unfolding Means
  result-cases allowed whole = elim (Bool-cases result.valid) [
    | inl v ↦ inr (v, sym (parse_request-Judged frame.payload).0 ∙ v)
    | inr v ↦ inl (allowed, inr (whole, v))
  ]

  completed-Means :
      allows policy peer_result ≡ true
      → is_completed frame.status ≡ true
      → result.valid ≡ true
      → Means completed
  unfolding Means
  completed-Means a c v = (a, c, v)

  serve_frame-Explained :
      (state : ControllerState)
      → allows policy peer_result ≡ true
      → Ends (serve_frame os svc socket peer_result state frame)
  unfolding serve_frame refuse_frame
  serve_frame-Explained state allowed w = elim (Bool-cases (is_completed frame.status)) [
    | inr broken ↦
        rw broken
          (refuse-Explained peer_result state _ _ _ _ _ _ (frame_status-Means allowed broken) w)
    | inl whole ↦ rw whole (
        serve_parsed-Explained peer_result state result.valid result.event_id result.message
          result.request allowed (completed-Means allowed whole) (result-cases allowed whole) w)
  ]

  serve_authenticated-Explained :
      (state : ControllerState)
      → allows policy peer_result ≡ true
      → Ends (serve_authenticated os svc socket peer_result state)
  unfolding serve_authenticated
  serve_authenticated-Explained state allowed w =
      let n =
        note os svc socket info (text "GH-IPC-0001") controller_protocol "authenticated"
          (text "Unix peer credentials were accepted.") (some peer_result) w in
      elim (Bool-cases n.0) [
        | inl noted ↦ rw noted (serve_frame-Explained state allowed n.1)
        | inr failed ↦
            rw failed (respond-Explained peer_result state _ _ (audit_failed-Means allowed))
      ]

  serve_peer-Explained :
      (state : ControllerState) → Ends (serve_peer os svc socket policy peer_result state)
  unfolding serve_peer
  serve_peer-Explained state w =
      if-elim (λ (m : M Session). Explained (m w).0) (not (credentials_ok peer_result)) _ _
        (λ unknown. respond-Explained peer_result state _ _ (peer_rejected-Means (ground arith)))
        (λ known.
          if-elim (λ (m : M Session). Explained (m w).0) (not (allows policy peer_result)) _ _
            (λ denied.
              refuse-Explained peer_result state _ _ _ _ _ _ (peer_rejected-Means (ground arith)) w)
            (λ allowed. serve_authenticated-Explained state (ground arith) w))

  -- However the session goes, its status says why. `completed`: the policy allows the peer, a
  -- whole frame was read, and the request in it is valid. `peer_rejected`: the policy does not
  -- allow the peer. `timed_out`: it does, and the frame met its deadline. `invalid_request`: it
  -- does, and the frame is closed early or of an invalid size, or holds no valid request.
  -- `audit_failed`: it does. And unless the status is `io_error`, one whole frame of at most 4096
  -- bytes of payload was sent as the answer.
  pub serve-Explained :
      (io_timeout : ℕ) (state : ControllerState) (w : World)
      → Explained (serve os svc socket policy io_timeout state w).0
  unfolding serve
  serve-Explained io_timeout state w =
      if-elim (λ (m : M Session). Explained (m w).0) (unusable os svc socket io_timeout) _ _
        (λ h. (io_error-Means, inl refl)) (λ h. serve_peer-Explained state w)
