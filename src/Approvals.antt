-- ===== src/Approvals.antt =====
-- The durable approval queue (src/defiant_agent_harness/approvals/store.py).
pub mod Types
pub mod Checks
pub mod Store
pub mod Operations
pub mod Reconcile
pub mod Queries
pub mod Calls
pub mod Lifecycle
pub mod Endings
pub mod Creation
pub mod Evolution
pub mod SingleUse
pub mod OneActive
pub mod Recovery
