-- ===== src/App/Relationship.antt =====
-- How a proposal relates to a decision: internal/app/relationship.go.
pub mod Spans
pub mod Classify
