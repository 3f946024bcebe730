-- ===== src/Redis.antt =====
-- internal/infrastructure/redis: access-token revocation, throttling and the event producer.
pub mod Keys
pub mod Revocation
pub mod Throttler
pub mod Producer
pub mod Consumer
