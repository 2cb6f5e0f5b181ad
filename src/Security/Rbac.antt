-- ===== src/Security/Rbac.antt =====
-- security/rbac.py: `PolicyEngine` and the decorator `require_permission`.
pub mod Table
mod Equality
pub mod Engine
pub mod Grants
pub mod Hierarchy
pub mod Checks
mod Tests
