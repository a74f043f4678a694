-- ===== src/Logs.antt =====
-- logs/: the audit store, its hash chain and its retention.
pub mod Integrity
pub mod Logger
pub mod Maintenance
