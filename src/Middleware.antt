-- ===== src/Middleware.antt =====
-- src/middleware.
pub mod RateLimit
