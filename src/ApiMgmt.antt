-- ===== src/ApiMgmt.antt =====
-- API keys: apps/server/internal/apimgmt/biz/apimgmt.go and apps/server/internal/apimgmt/data.
pub mod Types
pub mod Normalize
pub mod Keys
pub mod Access
pub mod Limits
pub mod Quotas
pub mod Table
pub mod Rotation
pub mod Isolation
pub mod Grants
pub mod Scopes
pub mod Creation
pub mod Examples
pub mod LimitExamples
