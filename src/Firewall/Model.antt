-- ===== src/Firewall/Model.antt =====
-- The firewall model, src/core/firewall/model.cpp and include/gatehold/firewall/model.hpp: rules and
-- their validation (`Defs`), and what the validation means (`Valid`, `Network`).
pub mod Defs
pub mod Network
pub mod Valid
pub mod RuleSets
