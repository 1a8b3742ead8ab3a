-- ===== src/Api.antt =====
-- The HTTP layer's guards, src/magsag/api.
pub mod RateLimit
pub mod RateBound
pub mod Idempotency
pub mod Cleanup
pub mod Replay
