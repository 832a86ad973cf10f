-- ===== src/Controller/Limiter.antt =====
-- `AdmissionRateLimiter`: its operations (`Defs`) and its bound (`Bound`).
pub mod Defs
pub mod Bound
