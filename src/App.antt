-- ===== src/App.antt =====
-- The application layer: internal/app.
pub mod Auth
pub mod Service
pub mod Completeness
pub mod Remember
pub mod Tokens
pub mod Relationship
pub mod Lookup
pub mod Preflight
pub mod Attach
pub mod Briefing
pub mod Workflows
pub mod Import
