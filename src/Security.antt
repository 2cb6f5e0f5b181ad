-- ===== src/Security.antt =====
-- packages/shared-kernel/src/converse_shared/security
pub mod Rbac
pub mod ApiKey
pub mod Jwt
pub mod PiiMasker
pub mod TenantContext
