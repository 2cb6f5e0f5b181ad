-- ===== src/Domain.antt =====
-- packages/shared-kernel/src/converse_shared/domain: entities, exceptions, value objects.
pub mod Value
pub mod Exceptions
pub mod Events
pub mod Entity
pub mod Pagination
pub mod Specification
pub mod ValueObjects
pub mod Names
