-- ===== src/Parsing.antt =====
-- Parsing of documents: apps/server/internal/knowledge/biz/parsing.go.
pub mod Clean
pub mod Headings
pub mod Blocks
pub mod Formats
pub mod Sources
pub mod Lines
pub mod Texts
pub mod Pages
pub mod Examples
