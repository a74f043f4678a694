-- ===== src/Tests.antt =====
-- Runs of the code at concrete inputs, at which the conditions of the theorems hold.
pub mod World
pub mod Auth
pub mod Logs
pub mod Tampering
pub mod Detection
pub mod Platform
pub mod Dashboard
pub mod Sources
