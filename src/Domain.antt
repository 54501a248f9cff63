-- ===== src/Domain.antt =====
-- The domain model: internal/domain/types.go.
pub mod Parse
pub mod Types
pub mod Validate
