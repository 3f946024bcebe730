-- ===== src/Auth/History.antt =====
-- Histories of requests to internal/auth: what marks the rows of the tables, and what becomes of it.
pub mod Marks
pub mod Later
pub mod Services
pub mod Requests
pub mod Refused
pub mod Redeemed
