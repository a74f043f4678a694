-- ===== src/Logs/Integrity.antt =====
-- logs/integrity.py: sealing the audit log into a hash chain, and verifying it.
pub mod Chain
pub mod Seal
pub mod Verify
pub mod Verdict
pub mod Sealing
pub mod Columns
pub mod Tampering
