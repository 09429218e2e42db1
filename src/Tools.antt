-- ===== src/Tools.antt =====
-- Capability grants and the tool registry (contracts.py, tools/registry.py).
pub mod Types
pub mod Registry
pub mod Grants
