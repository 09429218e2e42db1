-- ===== src/Journal.antt =====
-- operation_journal.py: the write-ahead journal that holds at most one operation over several stores.
pub mod Types
pub mod Validate
pub mod Store
pub mod Binding
pub mod Stored
pub mod Alternation
