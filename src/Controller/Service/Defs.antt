-- ===== src/Controller/Service/Defs.antt =====
-- The data of `ControllerService`, src/core/controller/controller_service.cpp and
-- include/gatehold/controller/controller_service.hpp.
use sasd_gatehold.Prelude.{
  ℕ, ◌+◌, Bool, true, false, ◌&&◌, Option, none, [], ◌∷◌, String, ltb, leb, if◌then◌else◌,
}
use sasd_gatehold.Text.{Bytes, text}
use sasd_gatehold.Text.Decimal.{max_u64}
use sasd_gatehold.Host.{Os, M, ◌>>=◌, pure, timestamp}
use sasd_gatehold.Logging.Event.{Event, Severity}
use sasd_gatehold.Logging.Journal
use sasd_gatehold.Logging.Journal.{journal_ok}
use sasd_gatehold.Controller.Privileged.Defs.{ControllerState, state_text, ControllerStartupResult}
use sasd_gatehold.Controller.Listener.Defs.{LocalListenerResult}

pub record ControllerServiceConfig : Type 0 where
  pub accept_poll_interval : ℕ
  pub session_io_timeout : ℕ
  pub maximum_consecutive_listener_errors : ℕ

pub data ControllerServiceStatus : Type 0 where
  stopped already_running invalid_configuration audit_failed : ControllerServiceStatus
  listener_start_failed listener_failed shutdown_failed : ControllerServiceStatus

pub record ControllerServiceResult : Type 0 where
  pub status : ControllerServiceStatus
  pub event_id : Bytes
  pub message : Bytes
  pub controller_state : ControllerState
  pub sessions_handled : ℕ
  pub protocol_failures : ℕ
  pub accept_timeouts : ℕ
  pub rate_limited_connections : ℕ
  pub listener_errors : ℕ
  pub controller_startup : Option ControllerStartupResult
  pub listener_startup : Option LocalListenerResult
  pub listener_shutdown : Option LocalListenerResult

-- `ControllerServiceResult::ok`.
abbrev pub service_ok : ControllerServiceResult → Bool
service_ok r = elim r.status [ stopped ↦ true | _ ↦ false ]

abbrev pub service_result :
    ControllerServiceStatus → Bytes → Bytes → ControllerState → ControllerServiceResult
service_result status id message state = record {
  status = status;
  event_id = id;
  message = message;
  controller_state = state;
  sessions_handled = 0;
  protocol_failures = 0;
  accept_timeouts = 0;
  rate_limited_connections = 0;
  listener_errors = 0;
  controller_startup = none;
  listener_startup = none;
  listener_shutdown = none;
}

-- The three fields that a failure sets.
abbrev pub set_status :
    ControllerServiceStatus → String → String → ControllerServiceResult → ControllerServiceResult
set_status status id words r = record r {
  status = status;
  event_id = text id;
  message = text words;
}

abbrev pub valid_config : ControllerServiceConfig → Bool
valid_config c =
    leb 10 c.accept_poll_interval
    && leb c.accept_poll_interval 1000
    && ltb 0 c.session_io_timeout
    && leb c.session_io_timeout 60000
    && ltb 0 c.maximum_consecutive_listener_errors
    && leb c.maximum_consecutive_listener_errors 100

-- The counters are of type `std::size_t`, of 64 bits.
abbrev pub increment_saturated : ℕ → ℕ
increment_saturated n = if ltb n max_u64 then n + 1 else n

unfoldable pub service_event : Bytes → Severity → String → String → String → ControllerState → Event
service_event t severity id outcome words state = record {
  timestamp = t;
  severity = severity;
  event_id = text id;
  component = text "controller-service";
  operation_id = text "controller-service";
  action = text "controller.service";
  outcome = text outcome;
  message = text words;
  attributes = (text "controller_state", text (state_text state)) ∷ [];
}

-- Append an event with some attributes; whether it was appended.
unfoldable pub note :
    Os → (Event → Event) → Severity → String → String → String → ControllerState → M Bool
note os more severity id outcome words state = do
  t ← timestamp os
  r ← Journal.append os (more (service_event t severity id outcome words state))
  pure (journal_ok r)
