-- ===== src/Examples.antt =====
-- Concrete runs of the theorems, over a small store.
mod World
mod Domain
mod Database
mod Import
mod Search
mod Remember
mod Proposals
mod Workflows
mod Closing
mod Briefing
