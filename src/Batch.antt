-- ===== src/Batch.antt =====
-- packages/coln-batch: the in-memory batch engine over Z-sets.
pub mod Types
pub mod Relation
pub mod Table
pub mod Query
pub mod Reference
pub mod BinaryJoin
