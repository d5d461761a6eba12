-- ===== src/Auth.antt =====
-- Signing in and registering: apps/server/internal/auth/biz/auth.go.
pub mod Types
pub mod Sessions
pub mod Logins
pub mod Examples
