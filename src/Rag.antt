-- ===== src/Rag.antt =====
-- The answers to messages: apps/server/internal/rag/biz.
pub mod Types
pub mod Context
pub mod Scoring
pub mod Retrieval
pub mod Answers
pub mod Refusals
pub mod Outcomes
pub mod Promises
pub mod Bounds
mod Examples
mod Runs
