-- ===== src/Tests.antt =====
-- Runs at concrete states, and the theorems applied to them.
pub mod Store
pub mod Fixture
pub mod Histories
pub mod Outcomes
pub mod Markers
pub mod Pages
pub mod Users
pub mod Consumer
pub mod Tokens
pub mod Queries
pub mod Uploads
