-- ===== src/Firewall.antt =====
-- The firewall core, src/core/firewall and include/gatehold/firewall.
pub mod Model
pub mod Renderer
pub mod Transaction
pub mod Revision
pub mod Pfctl
pub mod Activation
pub mod Tests
