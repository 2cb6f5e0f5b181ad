-- ===== src/Middleware.antt =====
-- packages/shared-kernel/src/converse_shared/middleware
pub mod Context
pub mod RateLimiter
pub mod RequestLogging
pub mod ErrorHandler
