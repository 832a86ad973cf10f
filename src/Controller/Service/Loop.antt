-- ===== src/Controller/Service/Loop.antt =====
-- The admission loop of `ControllerService::run`, src/core/controller/controller_service.cpp. The
-- answers of the stop token are a list of tests, by number; the loop begins with test 1. The loop of
-- the source has no bound, so it runs on fuel here, one round for each.
use sasd_gatehold.Prelude.{
  ℕ, zero, suc, ◌+◌, Bool, true, false, not, Option, none, some, leb, if◌then◌else◌,
}
use sasd_gatehold.Text.{text}
use sasd_gatehold.Text.Decimal.{to_string}
use sasd_gatehold.Host.{Os, M, ◌>>=◌, pure}
use sasd_gatehold.Logging.Event.{warning, critical, with_attribute}
use sasd_gatehold.Controller.Privileged.Defs.{ControllerState}
use sasd_gatehold.Controller.Protocol.Session.Defs.{ProtocolSessionResult, session_ok}
use sasd_gatehold.Controller.Listener.Defs as Listener
use sasd_gatehold.Controller.Listener.Defs.{
  LocalListenerStatus, LocalListenerResult, ControllerConnectionAcceptor,
}
use sasd_gatehold.Controller.Service.Defs.{
  ControllerServiceConfig, ControllerServiceStatus, audit_failed, listener_failed,
  ControllerServiceResult, set_status, increment_saturated, note,
}

-- The variables of the loop, with the states of the controller and of the listener.
pub record Loop (L : Type 0) : Type 0 where
  pub output : ControllerServiceResult
  pub consecutive_errors : ℕ
  pub rate_limit_audited : Bool
  pub shared : ControllerState × L

abbrev pub failed_session : Option ProtocolSessionResult → Bool
failed_session none = true
failed_session (some s) = not (session_ok s)

abbrev is_audit_failed : ControllerServiceStatus → Bool
is_audit_failed audit_failed = true
is_audit_failed _ = false

module _ {L : Type 0} (os : Os) (acceptor : ControllerConnectionAcceptor L)
    (config : ControllerServiceConfig) where
  abbrev after_session : LocalListenerResult → Loop L → Loop L
  after_session a s =
      let o = s.output in
      record s {
        output = record o {
          sessions_handled = increment_saturated o.sessions_handled;
          protocol_failures =
              if failed_session a.session
              then increment_saturated o.protocol_failures
              else o.protocol_failures;
        };
        consecutive_errors = 0;
      }

  abbrev after_timeout : Loop L → Loop L
  after_timeout s =
      let o = s.output in
      record s {
        output = record o { accept_timeouts = increment_saturated o.accept_timeouts };
        consecutive_errors = 0;
      }

  abbrev limited : Loop L → Loop L
  limited s =
      let o = s.output in
      record s {
        output = record o {
          rate_limited_connections = increment_saturated o.rate_limited_connections;
        };
        consecutive_errors = 0;
      }

  unfoldable pub after_rate_limit : Loop L → M (Loop L)
  after_rate_limit s = if s.rate_limit_audited then pure (limited s) else do
    noted ←
        note os (λ e. e) warning "GH-SVC-1003" "limited"
          "Controller connection admission rate limit activated." s.shared.0
    let s' : Loop L = limited s
    let o = s'.output
    pure (record s' {
      output =
          if noted
          then o
          else set_status audit_failed "GH-SVC-2005"
              "Connection rate limiting could not be audited." o;
      rate_limit_audited = true;
    })

  abbrev after_error : Loop L → Loop L
  after_error s =
      let o = s.output in
      let n = s.consecutive_errors in
      record s {
        output = record o { listener_errors = increment_saturated o.listener_errors };
        consecutive_errors = n + 1;
      }

  -- The `switch`.
  unfoldable pub count_admission : LocalListenerResult → Loop L → M (Loop L)
  count_admission a s = elim a.status [
    | Listener.session_completed ↦ pure (after_session a s)
    | Listener.accept_timed_out ↦ pure (after_timeout s)
    | Listener.rate_limited ↦ after_rate_limit s
    | _ ↦ pure (after_error s)
  ]

  abbrev gave_up : Loop L → Bool
  gave_up s = leb config.maximum_consecutive_listener_errors s.consecutive_errors

  -- Behind the `switch`; whether the loop is left.
  unfoldable pub judge_round : Loop L → M (Bool × Loop L)
  judge_round s =
      if gave_up s
      then (do
        _ ←
            note os
              (with_attribute (text "consecutive_listener_errors") (to_string s.consecutive_errors))
              critical "GH-SVC-2003" "failed"
              "Controller service stopped after repeated listener failures." s.shared.0
        let o = s.output
        pure (
          true,
          record s {
            output =
                set_status listener_failed "GH-SVC-2003"
                  "Controller service stopped after repeated listener failures." o;
          },
        ))
      else pure (is_audit_failed s.output.status, s)

  unfoldable pub round : Loop L → M (Bool × Loop L)
  round s = do
    (a, shared) ← acceptor.serve_one config.accept_poll_interval config.session_io_timeout s.shared
    s' ← count_admission a (record s { shared = shared })
    judge_round s'

  -- `none` is a loop that is still going when the fuel is spent.
  unfoldable pub loop : (ℕ → Bool) → ℕ → ℕ → Loop L → M (Option (Loop L))
  loop stops zero n s = pure none
  loop stops (suc fuel) n s = elim (stops n) [
    | true ↦ pure (some s)
    | false ↦ do
      (over, s') ← round s
      elim over [ true ↦ pure (some s') | false ↦ loop stops fuel (n + 1) s' ]
  ]
