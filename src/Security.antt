-- ===== src/Security.antt =====
-- security/: the rate limiter.
pub mod RateLimiter
mod Tests
