-- ===== src/Users.antt =====
-- services/user-service/src/user_service.
pub mod Profile
pub mod Repository
pub mod UpdateProfile
