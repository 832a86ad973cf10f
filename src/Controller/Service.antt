-- ===== src/Controller/Service.antt =====
-- `ControllerService`, src/core/controller/controller_service.cpp: its data (`Defs`), the admission
-- loop (`Loop`), a run (`Run`), and what holds of them (`Bounds`, `History`, `Stopping`, `Startup`, `Effect`).
pub mod Defs
pub mod Loop
pub mod Run
pub mod Steps
pub mod Effect
pub mod Bounds
pub mod History
pub mod Stopping
pub mod Startup
mod Tests
