-- ===== src/Middleware.antt =====
-- services/api/internal/middleware: the rate limiter and the authentication.
pub mod RateLimit
pub mod Http
