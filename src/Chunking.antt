-- ===== src/Chunking.antt =====
-- apps/server/internal/knowledge/biz/chunking.go: documents are cut into chunks for the index.
pub mod Tokens
pub mod Sentences
pub mod Build
pub mod TokenCount
pub mod Spans
pub mod Slices
pub mod Pieces
pub mod Segments
pub mod Cuts
pub mod Invariant
pub mod Rounds
pub mod Promises
pub mod Examples
