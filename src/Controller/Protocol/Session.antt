-- ===== src/Controller/Protocol/Session.antt =====
-- `ControllerProtocolSession`, src/core/controller/local_protocol.cpp: the data of a session (`Defs`),
-- `serve` (`Serve`), and what a session can do to the firewall (`Gate`).
pub mod Defs
pub mod Serve
pub mod Gate
pub mod Status
