-- ===== src/App/Import.antt =====
-- The import of documents: internal/app/importer.go.
pub mod Sentences
pub mod Extract
pub mod Candidates
pub mod Scan
pub mod Review
pub mod Counts
pub mod Outcomes
