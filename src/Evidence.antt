-- ===== src/Evidence.antt =====
-- The evidence chain (evidence/store.py, evidence_head.py).
pub mod Types
pub mod Chain
pub mod Head
pub mod Store
pub mod Verify
pub mod Tamper
pub mod Checkpoint
pub mod Standing
pub mod Synced
pub mod Append
pub mod History
pub mod Rollback
pub mod Open
