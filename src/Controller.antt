-- ===== src/Controller.antt =====
-- The controller, src/core/controller and include/gatehold/controller: the admission rate limiter and
-- the privileged controller.
pub mod Limiter
pub mod Privileged
pub mod Protocol
pub mod Listener
pub mod Service
mod Tests
