-- ===== src/Controller/Listener.antt =====
-- The listener: its data and the interface by which the service calls it (`Defs`), an
-- admission and a stop (`Serve`), and what an admission can do (`Gate`).
pub mod Defs
pub mod Serve
pub mod Gate
mod Tests
