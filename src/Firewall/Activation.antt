-- ===== src/Firewall/Activation.antt =====
-- The activation service, src/core/firewall/activation_service.cpp: its data (`Types`), the run of an
-- operation with its journal (`Flow`), the events (`Events`), the stages of `activate` (`Admission`,
-- `Rollback`, `Loading`), the commit and `activate` itself (`Service`), and `recover_pending`
-- (`Recovery`). The other modules are proofs.
pub mod Types
pub mod Flow
pub mod Events
pub mod Admission
pub mod Rollback
pub mod Loading
pub mod Service
pub mod Recovery
pub mod Rules
pub mod Conditions
pub mod Admitted
pub mod Recording
pub mod Undone
pub mod Opening
pub mod Trial
pub mod Approval
pub mod Commitment
pub mod Outcome
pub mod Recovered
pub mod Restart
pub mod Crash
