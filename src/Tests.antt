-- ===== src/Tests.antt =====
-- Concrete runs of the modelled code.
pub mod Budgets
pub mod Approvals
pub mod Policy
pub mod Tools
pub mod Evidence
pub mod Continuity
pub mod StrictJson
pub mod Journal
pub mod Trust
pub mod Orchestrator
