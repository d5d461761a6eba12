-- ===== src/Analytics.antt =====
-- Usage analytics: apps/server/internal/analytics/biz/analytics.go.
pub mod Filters
pub mod Windows
pub mod Examples
