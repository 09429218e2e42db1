-- ===== src/Continuity.antt =====
-- authority_publication_continuity.py: the anchor that lets an authority's publications only move on.
pub mod Types
pub mod Store
pub mod Document
pub mod Ratchet
