-- ===== src/Application.antt =====
-- packages/shared-kernel/src/converse_shared/application
pub mod Dto
pub mod Mediator
pub mod UseCase
pub mod Outcomes
pub mod Commands
