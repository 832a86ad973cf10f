-- ===== src/Logging/Format.antt =====
-- `JsonEventFormatter`, src/core/logging/json_event_formatter.cpp. A stream that is appended to is
-- the text that it ends up with.
pub mod Lines
pub mod Redaction
pub mod Defs
