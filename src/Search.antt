-- ===== src/Search.antt =====
-- Retrieval: internal/search.
pub mod Merge
pub mod Hybrid
