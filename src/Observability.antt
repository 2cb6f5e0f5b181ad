-- ===== src/Observability.antt =====
-- packages/shared-kernel/src/converse_shared/observability
pub mod Metrics
pub mod Logging
