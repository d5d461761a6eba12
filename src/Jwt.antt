-- ===== src/Jwt.antt =====
-- Tokens and the middleware that asks for them: apps/server/internal/kit/jwt/jwt.go, context.go beside it
-- and apps/server/internal/middleware/middleware.go.
pub mod Tokens
pub mod Middleware
pub mod RoundTrip
pub mod Guard
pub mod Examples
