-- ===== src/Http.antt =====
-- internal/httpapi.
pub mod RateLimit
