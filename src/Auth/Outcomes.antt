-- ===== src/Auth/Outcomes.antt =====
-- What the methods of internal/auth/service.go have done when they succeed.
pub mod Refresh
pub mod Passwords
pub mod Reset
pub mod Sessions
pub mod Register
