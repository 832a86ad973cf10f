-- ===== src/Firewall/Renderer.antt =====
-- The renderer of rulesets, src/core/firewall/pf_renderer.cpp: `render` (`Defs`) and the lines of its
-- text (`Lines`).
pub mod Defs
pub mod Lines
mod Tests
