-- ===== src/App/Workflows.antt =====
-- internal/app/workflows.go.
pub mod Prepare
pub mod Finish
pub mod Check
pub mod Assess
pub mod Query
pub mod Resolve
pub mod Reconcile
pub mod Stats
