-- ===== src/Plans.antt =====
-- src/plans: what a plan allows.
pub mod Limits
