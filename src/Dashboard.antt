-- ===== src/Dashboard.antt =====
-- The dashboard: the login limiter, the sessions, the queries and the event stream.
pub mod Limiter
pub mod Queries
pub mod Stream
pub mod Session
pub mod Login
pub mod Diagnostics
