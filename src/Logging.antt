-- ===== src/Logging.antt =====
-- The audit trail, src/core/logging and include/gatehold/logging: events (`Event`), their JSON lines
-- (`Format`) and the append-only journal (`Journal`).
pub mod Event
pub mod Format
pub mod Journal
mod Tests
