-- ===== src/Conversation.antt =====
-- Chat sessions: apps/server/internal/conversation/biz/conversation.go.
pub mod Types
pub mod Retention
pub mod Sessions
pub mod Purges
pub mod Examples
