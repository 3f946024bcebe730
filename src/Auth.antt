-- ===== src/Auth.antt =====
-- internal/auth.
pub mod Model
pub mod Session
pub mod RegistrationToken
pub mod PasswordRecoveryToken
pub mod Crypto
pub mod AccessToken
pub mod Service
pub mod History
pub mod Keeps
pub mod Outcomes
pub mod Atomic
