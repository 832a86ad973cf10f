-- ===== src/Controller/Listener/Defs.antt =====
-- The data of the listener, include/gatehold/controller/local_listener.hpp, and the interface
-- `ControllerConnectionAcceptor`. `L` is the state of the listener.
use sasd_gatehold.Prelude.{ℕ, Bool, true, false, Option}
use sasd_gatehold.Text.{Bytes}
use sasd_gatehold.Host.{M}
use sasd_gatehold.Controller.Privileged.Defs.{ControllerState}
use sasd_gatehold.Controller.Protocol.Session.Defs.{ProtocolSessionResult}

pub data LocalListenerStatus : Type 0 where
  listening stopped session_completed accept_timed_out rate_limited busy : LocalListenerStatus
  not_listening invalid_configuration unsafe_directory address_in_use : LocalListenerStatus
  audit_failed io_error cleanup_failed : LocalListenerStatus

pub record LocalListenerResult : Type 0 where
  pub status : LocalListenerStatus
  pub event_id : Bytes
  pub message : Bytes
  pub session : Option ProtocolSessionResult

-- `LocalListenerResult::ok`.
abbrev pub listener_ok : LocalListenerResult → Bool
listener_ok r = elim r.status [
  | listening ↦ true
  | stopped ↦ true
  | session_completed ↦ true
  | _ ↦ false
]

-- A session changes the state of the controller, which the listener reaches through the protocol.
pub record ControllerConnectionAcceptor (L : Type 0) : Type 0 where
  pub start : L → M (LocalListenerResult × L)
  pub serve_one : ℕ → ℕ → ControllerState × L → M (LocalListenerResult × (ControllerState × L))
  pub stop : L → M (LocalListenerResult × L)
