-- ===== src/Detection/Correlation.antt =====
-- detection/correlation.py: incident candidates, the rules and the sweep.
pub mod Candidate
pub mod Failures
pub mod Chains
pub mod Spray
pub mod Sweep
pub mod Ioc
