-- ===== src/Api.antt =====
-- The server's request handling: src/middleware.
pub mod Idempotency
mod Tests
