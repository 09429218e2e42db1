-- ===== src/Trust.antt =====
-- operator_trust_state.py: the enrolled operators' keys, which only grow from one generation to the next.
pub mod Types
pub mod Store
pub mod Additive
