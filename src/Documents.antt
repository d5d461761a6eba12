-- ===== src/Documents.antt =====
-- Documents: knowledge/biz/knowledge.go and embedding.go in apps/server/internal, over the statements
-- of knowledge/data/knowledge.go beside them.
pub mod Types
pub mod Operations
pub mod Embedding
pub mod Ingestion
pub mod Uploads
pub mod Tables
pub mod Bases
pub mod Statements
pub mod Index
pub mod Repo
pub mod Batches
pub mod States
pub mod Settling
pub mod Reindexing
pub mod Cleanups
pub mod Rollbacks
pub mod Examples
