-- ===== src/Detection.antt =====
-- detection/: techniques, scores, the event envelope, deduplication and correlation.
pub mod Mitre
pub mod Scoring
pub mod Event
pub mod Dedup
pub mod Correlation
pub mod Playbook
pub mod Phishing
pub mod Intel
