-- ===== src/Controller/Protocol/Session/Gate.antt =====
-- What a session of the local protocol, src/core/controller/local_protocol.cpp, can do to the disk of
-- the firewall and to the state of the controller.
use sasd_gatehold.Prelude.{
  ℕ, ◌≡◌, ◌⊎◌, inl, inr, refl, sym, subst, ◌∙◌, Bool, true, false, not, Option, none, some, ◌++◌,
  arith, String, Bool-cases, if-elim,
}
use sasd_gatehold.Text.{Bytes, text}
use sasd_gatehold.Host.{Os, World, M, tick}
use sasd_gatehold.Logging.Event.{Severity, info, error}
use sasd_gatehold.Logging.Journal.{entry, journal_text, append-quiet, append-appended}
use sasd_gatehold.Firewall.Activation.Types.{ActivationRequest, Service}
use sasd_gatehold.Controller.Privileged.Defs as Controller
use sasd_gatehold.Controller.Privileged.Defs.{ControllerState, ControllerActivationResult}
use sasd_gatehold.Controller.Protocol.Request.{
  RequestOperation, status, activate, ParsedRequest, parse_request,
}
use sasd_gatehold.Controller.Protocol.Frame as Frame
use sasd_gatehold.Controller.Protocol.Frame.{IoStatus, FrameResult, read_frame, is_completed}
use sasd_gatehold.Controller.Protocol.Session.Defs.{
  PeerCredentialResult, read_credentials, PeerCredentialPolicy, allows, credentials_ok,
  ProtocolSessionResult, Socket, Session, protocol_event, intent, controller_protocol,
}
use sasd_gatehold.Controller.Protocol.Session.Serve.{
  append, note, respond, answer, serve_status, report_activation, serve_activation, serve_operation,
  dispatch, refuse, serve_parsed, refuse_frame, serve_frame, serve_authenticated, serve_peer, serve,
  unusable,
}

module _ (os : Os) (svc : Service) (socket : Socket) where
  -- The disk, its past and the state of the controller are as they were.
  abbrev pub Quiet : World → ControllerState → Session × World → Type 0
  Quiet w state x = (x.1.disk ≡ w.disk) × (x.1.past ≡ w.past) × (x.0.state ≡ state)

  note-quiet :
      (s : Severity) (id operation : Bytes) (outcome : String) (message : Bytes)
      (c : Option PeerCredentialResult) (w : World)
      → let w' = (note os svc socket s id operation outcome message c w).1 in
        (w'.disk ≡ w.disk) × (w'.past ≡ w.past)
  unfolding note
  note-quiet s id operation outcome message c w = append-quiet os _ _

  answer-Quiet :
      (peer : PeerCredentialResult) (state : ControllerState) (id response : Bytes) (words : String)
      (done : ProtocolSessionResult) (w : World)
      → Quiet w state (answer os svc socket peer state id response words done w)
  unfolding answer
  answer-Quiet peer state id response words done w = grind (arith, note-quiet)

  refuse-Quiet :
      (peer : PeerCredentialResult) (state : ControllerState) (s : Severity) (id : Bytes)
      (outcome : String) (m r : Bytes) (done : ProtocolSessionResult) (w : World)
      → Quiet w state (refuse os svc socket peer state s id outcome m r done w)
  unfolding refuse respond
  refuse-Quiet peer state s id outcome m r done w = grind (arith, note-quiet)

  -- The disk, its past and the state that the controller leaves when it is given `q` in `before`.
  abbrev pub Left : ControllerState → ActivationRequest → World → Session × World → Type 0
  Left state q before x =
      let y = Controller.activate os svc q state before in
      (x.1.disk ≡ y.1.disk) × (x.1.past ≡ y.1.past) × (x.0.state ≡ y.0.state)

  -- The controller was given the activation of `r`, on the disk of `w`, when the journal of `w` had
  -- got the intent as its next line.
  pub record Activates (peer : PeerCredentialResult) (state : ControllerState) (r : ParsedRequest)
      (w : World) (x : Session × World) : Type 0 where
    pub before : World
    pub activation : ActivationRequest
    pub time : Bytes
    pub asked : r.activation ≡ some activation
    pub disk : before.disk ≡ w.disk
    pub past : before.past ≡ w.past
    pub audited : journal_text before.journal ≡ journal_text w.journal ++ entry (intent time r peer)
    pub left : Left state activation before x

  serve_activation-Left :
      (peer : PeerCredentialResult) (state : ControllerState) (id : Bytes) (q : ActivationRequest)
      (w : World)
      → Left state q w (serve_activation os svc socket peer state id q w)
  unfolding serve_activation report_activation
  serve_activation-Left peer state id q w = answer-Quiet peer _ id _ _ _ _

  serve_operation-cases :
      (peer : PeerCredentialResult) (state : ControllerState) (id : Bytes)
      (operation : RequestOperation) (activation : Option ActivationRequest) (w : World)
      → let x = serve_operation os svc socket peer state id operation activation w in
        Quiet w state x ⊎ ((q : ActivationRequest) × (activation ≡ some q) × Left state q w x)
  unfolding serve_operation serve_status
  serve_operation-cases peer state id status activation w = inl (answer-Quiet peer state id _ _ _ w)
  serve_operation-cases peer state id activate none w = inl (answer-Quiet peer state id _ _ _ w)
  serve_operation-cases peer state id activate (some q) w =
      inr (q, refl, serve_activation-Left peer state id q w)

  dispatch-cases :
      (peer : PeerCredentialResult) (state : ControllerState) (r : ParsedRequest) (w : World)
      → let x = dispatch os svc socket peer state r w in
        Quiet w state x ⊎ Activates peer state r w x
  unfolding dispatch respond
  dispatch-cases peer state r w =
      let t = os.timestamp w.clock in
      let n = append os svc socket (intent t r peer) (tick w) in
      let (d, p) = append-quiet os (intent t r peer) (tick w) in
      elim (Bool-cases n.0) [
        | inr failed ↦ inl (rw failed (d, p, refl))
        | inl noted ↦
            let y =
              serve_operation os svc socket peer state r.request_id r.operation r.activation n.1 in
            let same : dispatch os svc socket peer state r w ≡ y = rw noted refl in
            subst (λ x. Quiet w state x ⊎ Activates peer state r w x) (sym same)
              (elim (serve_operation-cases peer state r.request_id r.operation r.activation n.1) [
                | inl (qd, qp, qs) ↦ inl (qd ∙ d, qp ∙ p, qs)
                | inr (q, asked, left) ↦ inr (record {
                  before = n.1;
                  activation = q;
                  time = t;
                  asked = asked;
                  disk = d;
                  past = p;
                  audited = (append-appended os (intent t r peer) (tick w) noted).0;
                  left = left;
                })
              ])
      ]

  serve_parsed-cases :
      (peer : PeerCredentialResult) (state : ControllerState) (valid : Bool) (id message : Bytes)
      (request : Option ParsedRequest) (w : World)
      → let x = serve_parsed os svc socket peer state valid id message request w in
        Quiet w state x
        ⊎ ((r : ParsedRequest) × (valid ≡ true) × (request ≡ some r) × Activates peer state r w x)
  unfolding serve_parsed
  serve_parsed-cases peer state true id message none w = inl (refuse-Quiet peer state _ _ _ _ _ _ w)
  serve_parsed-cases peer state false id message r w = inl (refuse-Quiet peer state _ _ _ _ _ _ w)
  serve_parsed-cases peer state true id message (some r) w = elim (dispatch-cases peer state r w) [
    | inl q ↦ inl q
    | inr a ↦ inr (r, refl, refl, a)
  ]

  -- What stood before a request of activation reached the controller.
  pub record Dispatched (policy : PeerCredentialPolicy) (state : ControllerState) (w : World)
      (x : Session × World) : Type 0 where
    pub peer : PeerCredentialResult
    pub payload : Bytes
    pub request : ParsedRequest
    pub time : Bytes
    pub authenticated : World
    -- the kernel's credentials are those that the policy allows
    pub known : peer ≡ read_credentials socket.peer
    pub allowed : allows policy peer ≡ true
    -- the socket gave one whole frame, and it holds the request
    pub frame : read_frame socket.arrivals ≡ record { status = Frame.completed; payload = payload }
    pub valid : (parse_request payload).valid ≡ true
    pub parsed : (parse_request payload).request ≡ some request
    -- the peer was noted in the journal, and the disk is untouched
    pub disk : authenticated.disk ≡ w.disk
    pub past : authenticated.past ≡ w.past
    pub audited :
        journal_text authenticated.journal
        ≡ journal_text w.journal
          ++ entry (
              protocol_event time info
                (text "GH-IPC-0001")
                controller_protocol
                "authenticated"
                (text "Unix peer credentials were accepted.")
                (some peer))
    -- then the intent was noted, and the controller ran
    pub activates : Activates peer state request authenticated x

  abbrev Framed :
      PeerCredentialResult → ControllerState → FrameResult → World → Session × World → Type 0
  Framed peer state f w x =
      (r : ParsedRequest) × (is_completed f.status ≡ true)
      × ((parse_request f.payload).valid ≡ true)
      × ((parse_request f.payload).request ≡ some r)
      × Activates peer state r w x

  serve_frame-cases :
      (peer : PeerCredentialResult) (state : ControllerState) (f : FrameResult) (w : World)
      → let x = serve_frame os svc socket peer state f w in
        Quiet w state x ⊎ Framed peer state f w x
  unfolding serve_frame refuse_frame
  serve_frame-cases peer state f w = elim (Bool-cases (is_completed f.status)) [
    | inr broken ↦ inl (rw broken (refuse-Quiet peer state _ _ _ _ _ _ w))
    | inl whole ↦
        let p = parse_request f.payload in
        let y = serve_parsed os svc socket peer state p.valid p.event_id p.message p.request w in
        let same : serve_frame os svc socket peer state f w ≡ y = rw whole refl in
        subst (λ x. Quiet w state x ⊎ Framed peer state f w x) (sym same)
          (elim (serve_parsed-cases peer state p.valid p.event_id p.message p.request w) [
            | inl q ↦ inl q
            | inr (r, v, e, a) ↦ inr (r, whole, v, e, a)
          ])
  ]

  completed-frame :
      (f : FrameResult)
      → is_completed f.status ≡ true
      → f ≡ record { status = Frame.completed; payload = f.payload }
  completed-frame f h = ground arith

  serve_authenticated-cases :
      (policy : PeerCredentialPolicy) (state : ControllerState) (w : World)
      → let peer = read_credentials socket.peer in
        let x = serve_authenticated os svc socket peer state w in
        allows policy peer ≡ true → Quiet w state x ⊎ Dispatched policy state w x
  unfolding serve_authenticated respond note
  serve_authenticated-cases policy state w allowed =
      let peer = read_credentials socket.peer in
      let t = os.timestamp w.clock in
      let e =
        protocol_event t info (text "GH-IPC-0001") controller_protocol "authenticated"
          (text "Unix peer credentials were accepted.") (some peer) in
      let n = append os svc socket e (tick w) in
      let (d, p) = append-quiet os e (tick w) in
      let f = read_frame socket.arrivals in
      elim (Bool-cases n.0) [
        | inr failed ↦ inl (rw failed (d, p, refl))
        | inl noted ↦
            let y = serve_frame os svc socket peer state f n.1 in
            let same : serve_authenticated os svc socket peer state w ≡ y = rw noted refl in
            subst (λ x. Quiet w state x ⊎ Dispatched policy state w x) (sym same)
              (elim (serve_frame-cases peer state f n.1) [
                | inl (qd, qp, qs) ↦ inl (qd ∙ d, qp ∙ p, qs)
                | inr (r, whole, valid, parsed, a) ↦ inr (record {
                  peer = peer;
                  payload = f.payload;
                  request = r;
                  time = t;
                  authenticated = n.1;
                  known = refl;
                  allowed = allowed;
                  frame = completed-frame f whole;
                  valid = valid;
                  parsed = parsed;
                  disk = d;
                  past = p;
                  audited = (append-appended os e (tick w) noted).0;
                  activates = a;
                })
              ])
      ]

  -- For the peer that the kernel names.
  abbrev Gated : PeerCredentialPolicy → ControllerState → World → M Session → Type 0
  Gated policy state w m = Quiet w state (m w) ⊎ Dispatched policy state w (m w)

  serve_peer-Gated :
      (policy : PeerCredentialPolicy) (state : ControllerState) (w : World)
      → let x = serve_peer os svc socket policy (read_credentials socket.peer) state w in
        Quiet w state x ⊎ Dispatched policy state w x
  unfolding serve_peer respond
  serve_peer-Gated policy state w =
      let peer = read_credentials socket.peer in
      if-elim (Gated policy state w) (not (credentials_ok peer)) _ _
        (λ unknown.
          let (d, p) =
            note-quiet error peer.event_id controller_protocol "failed" peer.message none w in
          inl (d, p, refl))
        (λ known.
          if-elim (Gated policy state w) (not (allows policy peer)) _ _
            (λ denied. inl (refuse-Quiet peer state _ _ _ _ _ _ w))
            (λ allowed. serve_authenticated-cases policy state w (ground arith)))

  -- Whatever the peer, the socket, the host and the state: a session either leaves the disk, the
  -- disks passed through and the state of the controller as they were, or it has dispatched an
  -- activation. Then the policy allows the credentials that the kernel gave, `read_frame` has
  -- completed and its payload parses as that request, the journal had got an event on the
  -- authenticated peer and then one on the intent before the controller was called, on the disk
  -- that the session began with, and disk, disks passed through and state are those that the
  -- controller left.
  pub serve-Dispatched :
      (policy : PeerCredentialPolicy) (io_timeout : ℕ) (state : ControllerState) (w : World)
      → let x = serve os svc socket policy io_timeout state w in
        Quiet w state x ⊎ Dispatched policy state w x
  unfolding serve
  serve-Dispatched policy io_timeout state w =
      if-elim (Gated policy state w) (unusable os svc socket io_timeout) _ _
        (λ h. inl (refl, refl, refl)) (λ h. serve_peer-Gated policy state w)
