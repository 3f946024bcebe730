-- ===== src/Http.antt =====
-- internal/transport/http: what stands between a request and the services.
pub mod Upload
pub mod Pictures
pub mod Authenticate
pub mod Failures
