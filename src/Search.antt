-- ===== src/Search.antt =====
-- The search package, packages/search.
pub mod Collection
pub mod Visibility
pub mod Indexing
pub mod Reindex
