-- ===== src/Audit.antt =====
-- services/audit-service/src/audit_service.
pub mod Log
pub mod LogAction
