-- ===== src/Firewall/Pfctl.antt =====
-- Native validation and loading of a revision, native_validator.cpp and pfctl_loader.cpp.
pub mod Run
