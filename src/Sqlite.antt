-- ===== src/Sqlite.antt =====
-- The store of internal/adapters/sqlite.
pub mod Tables
pub mod Workspaces
pub mod Children
pub mod Decisions
pub mod Tokens
pub mod Queries
pub mod Candidates
pub mod Documents
pub mod Conflicts
pub mod Index
pub mod Vectors
pub mod Adapter
pub mod Writes
