-- ===== src/Auth.antt =====
-- src/auth: who may act inside which organisation.
pub mod OrgAccess
