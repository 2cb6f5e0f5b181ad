-- ===== src/Auth.antt =====
-- services/auth-service/src/auth_service
pub mod Credentials
pub mod Repository
pub mod Password
pub mod Login
pub mod Register
