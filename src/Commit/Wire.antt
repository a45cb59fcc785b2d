-- ===== src/Commit/Wire.antt =====
-- packages/coln-store/src/commit/wire
pub mod Libraries
pub mod PrimValue
pub mod Columns
pub mod Group
pub mod Body
pub mod Payload
