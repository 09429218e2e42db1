-- ===== src/Policy.antt =====
-- The deterministic policy engine (src/defiant_agent_harness/policy/engine.py).
pub mod Types
pub mod Payload
pub mod Match
pub mod Evaluate
pub mod Spec
pub mod Strictness
