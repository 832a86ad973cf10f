-- ===== src/Controller/Listener/Serve.antt =====
-- `LocalControllerListener::serve_one` and `stop`, src/core/controller/local_listener.cpp. A call of
-- `serve_one` meets a list of rounds of its loop, each with `poll` and `accept`; at the end of the
-- list the deadline is met. A connection comes with the time that the steady clock shows when it is
-- accepted. The delay of a connection that is refused for its rate changes nothing.
use sasd_gatehold.Prelude.{
  ℕ, Bool, true, false, not, ◌&&◌, ◌||◌, Option, none, some, List, [], ◌∷◌, String, ltb, leb,
  if◌then◌else◌,
}
use sasd_gatehold.Text.{Bytes, text}
use sasd_gatehold.Host.{Os, M, ◌>>=◌, pure, syscall, timestamp}
use sasd_gatehold.Logging.Event.{Event, Severity, info, warning, error}
use sasd_gatehold.Logging.Journal
use sasd_gatehold.Logging.Journal.{journal_ok}
use sasd_gatehold.Firewall.Activation.Types.{Service}
use sasd_gatehold.Controller.Limiter.Defs as Limiter
use sasd_gatehold.Controller.Limiter.Defs.{AdmissionRateLimiter, AdmissionRateDecision}
use sasd_gatehold.Controller.Privileged.Defs.{ControllerState}
use sasd_gatehold.Controller.Protocol.Session.Defs.{
  PeerCredentialPolicy, ProtocolSessionResult, Socket,
}
use sasd_gatehold.Controller.Protocol.Session.Serve.{serve}
use sasd_gatehold.Controller.Listener.Defs.{
  LocalListenerStatus, stopped, session_completed, accept_timed_out, rate_limited, busy,
  not_listening, invalid_configuration, audit_failed, io_error, cleanup_failed, LocalListenerResult,
}

-- `retried` is EINTR, EAGAIN or ECONNABORTED, `refused` any other error.
pub data Round : Type 0 where
  connected : Socket → ℕ → Round
  retried refused expired : Round

-- What `fstatat` finds at the path of the socket.
pub data PathEntry : Type 0 where
  absent unreadable own_socket other_entry : PathEntry

-- `listening` is a descriptor of the listener that is not negative, `serving` the flag that
-- `ServingClaim` takes.
pub record LocalControllerListener : Type 0 where
  pub listening : Bool
  pub owns_socket_path : Bool
  pub serving : Bool
  pub admission_rate_limiter : AdmissionRateLimiter

abbrev result :
    LocalListenerStatus → String → String → Option ProtocolSessionResult → LocalListenerResult
result status id words session = record {
  status = status;
  event_id = text id;
  message = text words;
  session = session;
}

abbrev pub valid_timeout : ℕ → Bool
valid_timeout t = ltb 0 t && leb t 60000

unfoldable pub listener_event : Bytes → Severity → String → String → String → Event
listener_event t severity id outcome words = record {
  timestamp = t;
  severity = severity;
  event_id = text id;
  component = text "controller-local-listener";
  operation_id = text "controller-listener";
  action = text "controller.listener";
  outcome = text outcome;
  message = text words;
  attributes = [];
}

module _ (os : Os) (svc : Service) (policy : PeerCredentialPolicy) (ticks : ℕ) where
  unfoldable pub note : Severity → String → String → String → M Bool
  note severity id outcome words = do
    t ← timestamp os
    r ← Journal.append os (listener_event t severity id outcome words)
    pure (journal_ok r)

  -- The answer, and the states of the controller and of the listener.
  abbrev pub Answer : Type 0
  Answer = LocalListenerResult × (ControllerState × LocalControllerListener)

  -- A session on an admitted connection.
  unfoldable pub serve_session : ℕ → Socket → ControllerState → LocalControllerListener → M Answer
  serve_session session_timeout socket c l = do
    s ← serve os svc socket policy session_timeout c
    let r = s.result
    pure (
        (
          record {
            status = session_completed;
            event_id = r.event_id;
            message = text "Local controller connection reached a terminal session result.";
            session = some r;
          },
          (s.state, l),
        ))

  -- From the accepted connection on.
  unfoldable pub admit :
      ℕ
      → Socket
      → ControllerState
      → LocalControllerListener
      → AdmissionRateDecision × AdmissionRateLimiter
      → M Answer
  admit session_timeout socket c l (decision, limiter) =
      let l' : LocalControllerListener = record l { admission_rate_limiter = limiter } in
      if not decision.admitted
      then pure (
          (
            result rate_limited "GH-LSN-1006" "Local controller connection was rate limited." none,
            (c, l'),
          ))
      else serve_session session_timeout socket c l'

  abbrev timed_out : LocalListenerResult
  timed_out =
      result accept_timed_out "GH-LSN-1005"
        "No local controller connection arrived before the deadline." none

  -- Behind the loop.
  unfoldable pub fail_accept : ControllerState → LocalControllerListener → M Answer
  fail_accept c l = do
    _ ← note error "GH-LSN-2003" "failed" "Local listener could not accept a pending connection."
    pure (
        (
          result io_error "GH-LSN-2003" "Local listener could not accept a pending connection."
              none,
          (c, l),
        ))

  -- The loop.
  unfoldable pub accept_loop : ℕ → List Round → ControllerState → LocalControllerListener → M Answer
  accept_loop session_timeout [] c l = pure (timed_out, (c, l))
  accept_loop session_timeout (expired ∷ rs) c l = pure (timed_out, (c, l))
  accept_loop session_timeout (retried ∷ rs) c l = accept_loop session_timeout rs c l
  accept_loop session_timeout (refused ∷ rs) c l = fail_accept c l
  accept_loop session_timeout (connected socket now ∷ rs) c l =
      admit session_timeout socket c l (Limiter.try_admit ticks now l.admission_rate_limiter)

  unfoldable pub serve_one :
      List Round → ℕ → ℕ → ControllerState × LocalControllerListener → M Answer
  serve_one rs accept_timeout session_timeout (c, l) =
      if l.serving
      then (do
        _ ←
            note warning "GH-LSN-1004" "rejected"
              "Concurrent local listener admission was rejected."
        pure (
            (
              result busy "GH-LSN-1004" "Local listener already has an active admission call." none,
              (c, l),
            )))
      else if not l.listening
      then pure
          ((result not_listening "GH-LSN-1001" "Local listener has not been started." none, (c, l)))
      else if not (valid_timeout accept_timeout) || not (valid_timeout session_timeout)
      then pure (
          (
            result invalid_configuration "GH-LSN-1001"
                "Local listener timeout is outside safe bounds." none,
            (c, l),
          ))
      else accept_loop session_timeout rs c l

  -- `cleanup_socket_path`: whether the path is gone. `unlinkat` succeeds on ENOENT, too.
  unfoldable pub cleanup_socket_path : PathEntry → LocalControllerListener → M Bool
  cleanup_socket_path e l =
      if not l.owns_socket_path
      then pure true
      else elim e [ absent ↦ pure true | own_socket ↦ syscall os | _ ↦ pure false ]

  -- The state behind the cleanup.
  abbrev closed : LocalControllerListener → LocalControllerListener
  closed l = record l { listening = false; owns_socket_path = false }

  unfoldable pub stop :
      PathEntry → LocalControllerListener → M (LocalListenerResult × LocalControllerListener)
  stop e l =
      if l.serving
      then pure (
          (
            result busy "GH-LSN-1004"
                "Local listener cannot stop while a session admission is active." none,
            l,
          ))
      else if not l.listening && not l.owns_socket_path
      then pure
          ((result stopped "GH-LSN-0003" "Local controller listener is already stopped." none, l))
      else do
        removed ← cleanup_socket_path e l
        if not removed
            then (do
              _ ←
                  note error "GH-LSN-2004" "failed"
                    "Local listener socket path could not be removed safely."
              pure (
                  (
                    result cleanup_failed "GH-LSN-2004"
                        "Local listener socket path could not be removed safely." none,
                    closed l,
                  )))
            else do
              noted ← note info "GH-LSN-0003" "stopped" "Local controller listener stopped cleanly."
              pure (
                  (
                    if noted
                        then result stopped "GH-LSN-0003"
                            "Local controller listener stopped cleanly." none
                        else result audit_failed "GH-LSN-2002"
                            "Local listener shutdown could not be audited." none,
                    closed l,
                  ))
