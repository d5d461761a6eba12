-- ===== src/Iam.antt =====
-- Who may do what: apps/server/internal/iam/biz/iam.go.
pub mod Permissions
pub mod Decisions
pub mod Examples
