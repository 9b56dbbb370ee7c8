-- ===== src/Desktop.antt =====
-- apps/desktop/src/main: the parts of Mission Control that decide and keep state without Electron.
pub mod Json
pub mod UpdateState
pub mod UpdatePolicy
pub mod Backoff
pub mod Summary
pub mod Supervisor
mod Tests
