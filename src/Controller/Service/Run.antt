-- ===== src/Controller/Service/Run.antt =====
-- `ControllerService::run`, src/core/controller/controller_service.cpp, as its stages, the last ones
-- first. `running` is the flag that `RunningClaim` takes; test 0 of the stop token is the one in
-- front of the listener.
use sasd_gatehold.Prelude.{ℕ, Bool, true, false, not, Option, none, some, if◌then◌else◌}
use sasd_gatehold.Text.{text}
use sasd_gatehold.Text.Decimal.{to_string}
use sasd_gatehold.Host.{Os, M, ◌>>=◌, pure}
use sasd_gatehold.Logging.Event.{Event, info, warning, error, with_attribute}
use sasd_gatehold.Controller.Privileged.Defs as Controller
use sasd_gatehold.Controller.Privileged.Defs.{ControllerState, ControllerStartupResult}
use sasd_gatehold.Controller.Listener.Defs.{
  LocalListenerResult, listener_ok, ControllerConnectionAcceptor,
}
use sasd_gatehold.Controller.Service.Defs.{
  ControllerServiceConfig, ControllerServiceStatus, stopped, already_running, invalid_configuration,
  audit_failed, listener_start_failed, shutdown_failed, ControllerServiceResult, service_result,
  set_status, valid_config, note,
}
use sasd_gatehold.Controller.Service.Loop.{Loop, loop}

-- The result, and the states of the controller and of the listener.
pub record ServiceRun (L : Type 0) : Type 0 where
  pub result : ControllerServiceResult
  pub controller : ControllerState
  pub listener : L

abbrev is_stopped : ControllerServiceStatus → Bool
is_stopped stopped = true
is_stopped _ = false

-- The counters of the last event.
abbrev with_counters : ControllerServiceResult → Event → Event
with_counters o e =
    with_attribute (text "rate_limited_connections") (to_string o.rate_limited_connections) (
      with_attribute (text "listener_errors") (to_string o.listener_errors) (
        with_attribute (text "protocol_failures") (to_string o.protocol_failures)
          (with_attribute (text "sessions_handled") (to_string o.sessions_handled) e)))

module _ {L : Type 0} (os : Os) (acceptor : ControllerConnectionAcceptor L)
    (config : ControllerServiceConfig) (stops : ℕ → Bool) where
  abbrev finished : ControllerServiceResult → ControllerState → L → ServiceRun L
  finished r c l = record { result = r; controller = c; listener = l }

  -- From the result of `listener_.stop()` on.
  unfoldable pub conclude :
      LocalListenerResult → ControllerServiceResult → M ControllerServiceResult
  conclude shutdown o =
      if not (listener_ok shutdown)
      then pure (
          set_status shutdown_failed "GH-SVC-2004"
            "Controller service listener did not stop cleanly." o)
      else do
        noted ←
            note os (with_counters o) (if is_stopped o.status then info else error) "GH-SVC-0003"
              "stopped" "Controller service listener is closed." o.controller_state
        pure (
            if noted
            then o
            else set_status audit_failed "GH-SVC-2005"
                "Controller service shutdown could not be audited." o)

  -- Behind the loop.
  unfoldable pub shut_down : Loop L → M (ServiceRun L)
  shut_down s = do
    (shutdown, l) ← acceptor.stop s.shared.1
    let o = s.output
    r ←
        conclude shutdown
          (record o { listener_shutdown = some shutdown; controller_state = s.shared.0 })
    pure (finished r s.shared.0 l)

  -- The readiness event could not be appended.
  unfoldable pub withdraw : ControllerServiceResult → ControllerState → L → M (ServiceRun L)
  withdraw o c l = do
    (shutdown, l') ← acceptor.stop l
    let o' : ControllerServiceResult = record o { listener_shutdown = some shutdown }
    pure (
        finished
          (if not (listener_ok shutdown)
            then set_status shutdown_failed "GH-SVC-2004"
                "Service readiness audit failed and listener shutdown was incomplete." o'
            else set_status audit_failed "GH-SVC-2005"
                "Controller service readiness could not be audited." o')
          c l')

  abbrev pub finish_loop : Option (Loop L) → M (Option (ServiceRun L))
  finish_loop none = pure none
  finish_loop (some s) = do r ← shut_down s; pure (some r)

  -- The listener has started.
  unfoldable pub admit_connections :
      ℕ → ControllerServiceResult → ControllerState → L → M (Option (ServiceRun L))
  admit_connections fuel o c l = do
    noted ←
        note os
          (with_attribute (text "maximum_consecutive_listener_errors")
            (to_string config.maximum_consecutive_listener_errors))
          info "GH-SVC-0002" "running" "Controller service admission loop is active." c
    if not noted then (do r ← withdraw o c l; pure (some r)) else do
      ended ← loop os acceptor config stops fuel 1 (record {
        output = o;
        consecutive_errors = 0;
        rate_limit_audited = false;
        shared = (c, l);
      })
      finish_loop ended

  -- From `listener_.start()` on.
  unfoldable pub open_listener :
      ℕ → ControllerServiceResult → ControllerState → L → M (Option (ServiceRun L))
  open_listener fuel o c l = do
    (startup, l') ← acceptor.start l
    let o' : ControllerServiceResult = record o { listener_startup = some startup }
    if not (listener_ok startup)
        then (do
          _ ←
              note os (with_attribute (text "listener_event_id") startup.event_id) error
                "GH-SVC-2002" "failed" "Controller service listener failed to start." c
          pure (
              some (
                finished
                  (set_status listener_start_failed "GH-SVC-2002"
                    "Controller service listener failed to start." o')
                  c l')))
        else admit_connections fuel o' c l'

  -- A stop that was requested before the listener was opened.
  unfoldable pub stop_early : ControllerServiceResult → ControllerState → M ControllerServiceResult
  stop_early o c = do
    noted ←
        note os (λ e. e) info "GH-SVC-0003" "stopped"
          "Controller service stop was already requested after recovery." c
    pure (
        if noted
        then o
        else set_status audit_failed "GH-SVC-2005" "Controller service stop could not be audited."
            o)

  -- From the result of `controller_.start()` on.
  unfoldable pub continue_run : ℕ → Bool → ControllerStartupResult → L → M (Option (ServiceRun L))
  continue_run fuel audited startup l =
      let c = startup.state in
      let o : ControllerServiceResult =
        record (service_result stopped (text "GH-SVC-0003")
          (text "Controller service stopped cleanly.") c) { controller_startup = some startup } in
      if not (valid_config config)
      then pure (
          some (
            finished
              (set_status invalid_configuration "GH-SVC-1001"
                "Controller recovery completed, but service configuration is invalid." o)
              c l))
      else if not audited
      then pure (
          some (
            finished
              (set_status audit_failed "GH-SVC-2001"
                "Controller recovery completed, but service startup audit failed." o)
              c l))
      else if stops 0
      then (do r ← stop_early o c; pure (some (finished r c l)))
      else open_listener fuel o c l

  -- The events in front of the recovery; whether the first was appended.
  unfoldable pub announce : ControllerState → M Bool
  announce state = do
    audited ←
        note os (λ e. e) info "GH-SVC-0001" "starting"
          "Controller service recovery and startup began." state
    if valid_config config then pure audited else do
      _ ←
          note os (λ e. e) warning "GH-SVC-1001" "rejected"
            "Controller service configuration is outside safe bounds." state
      pure audited

  unfoldable pub run : ℕ → Bool → ControllerState × L → M (Option (ServiceRun L))
  run fuel running (state, l) =
      if running
      then pure (
          some (
            finished
              (service_result already_running (text "GH-SVC-1002")
                (text "Controller service already has an active run loop.") state)
              state l))
      else do
        audited ← announce state
        startup ← Controller.start os state
        continue_run fuel audited startup l
