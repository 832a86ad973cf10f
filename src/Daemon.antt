-- ===== src/Daemon.antt =====
-- The daemon, src/core/daemon and include/gatehold/daemon: the policy of the read-only daemon.
pub mod ReadOnly
mod Tests
pub mod Reach
