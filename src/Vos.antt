-- ===== src/Vos.antt =====
-- The tree of nodes and its service, internal/vos.
pub mod Types
pub mod Tree
