-- ===== src/Manager.antt =====
-- cmd/manager: the command that wires the parts of the manager together.
pub mod Monitor
pub mod Run
pub mod Settings
pub mod Wiring
