-- ===== src/Infrastructure.antt =====
-- packages/shared-kernel/src/converse_shared/infrastructure, and the services that it calls.
pub mod Redis
pub mod Messaging
pub mod Cache
pub mod EventBus
pub mod Health
pub mod UnitOfWork
pub mod Url
pub mod Rows
pub mod Database
