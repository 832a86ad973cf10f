-- ===== src/Controller/Privileged.antt =====
-- `PrivilegedPfController`: its operations (`Defs`) and what its states mean (`States`).
pub mod Defs
pub mod States
