-- ===== src/Auth/Service.antt =====
-- internal/auth/service.go: what the service is made of; its methods are in the modules below.
pub mod Deps
pub mod Register
pub mod Login
pub mod Sessions
pub mod Passwords
