-- ===== src/User/Outcomes.antt =====
-- The methods of internal/user/service.go, by outcome.
pub mod Removal
pub mod Update
pub mod Silence
pub mod Pictures
