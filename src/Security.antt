-- ===== src/Security.antt =====
-- The package security.
pub mod RateLimiter
pub mod Middleware
