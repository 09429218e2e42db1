-- ===== src/Budgets.antt =====
-- The budget ledger (src/defiant_agent_harness/budgets/ledger.py).
pub mod Types
pub mod State
pub mod Operations
pub mod Journaled
pub mod Reconcile
pub mod Commitment
pub mod Settlement
pub mod Idempotence
pub mod History
pub mod Conservation
pub mod Disposition
