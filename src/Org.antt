-- ===== src/Org.antt =====
-- services/org-service/src/org_service
pub mod Organization
pub mod Repository
pub mod CreateOrg
