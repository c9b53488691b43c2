-- ===== src/Security.antt =====
-- The security layer, src/shared/platform-security: authentication results, authorization by the
-- tool policy and rate limiting.
pub mod Models
pub mod RateLimit
pub mod Rbac
pub mod Sanitization
pub mod Jwt
