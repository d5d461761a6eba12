-- ===== src/Rerank.antt =====
-- Reordering of retrieved chunks: apps/server/internal/rag/biz/steps_rerank.go.
pub mod Order
pub mod Counts
pub mod Examples
