-- ===== src/Orchestrator.antt =====
-- The control loop over the stores (src/defiant_agent_harness/orchestrator/harness.py).
pub mod Types
pub mod Monad
pub mod Frame
pub mod Called
pub mod Execution
pub mod Dispatching
pub mod Guarded
pub mod Once
pub mod Spending
pub mod Warrant
pub mod Begun
pub mod Approved
pub mod Single
pub mod Basis
pub mod Records
pub mod Reading
pub mod Recovery
pub mod Held
pub mod Expiry
pub mod Execute
pub mod Handle
pub mod Resume
pub mod External
pub mod Operator
