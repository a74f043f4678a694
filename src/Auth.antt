-- ===== src/Auth.antt =====
-- auth/core.py: TOTP and recovery-code authentication over the SQLite tables of auth/schema.sql.
pub mod Events
pub mod Store
pub mod Backoff
pub mod Token
pub mod Recovery
pub mod Users
