-- ===== src/Commit.antt =====
-- packages/coln-store/src/commit
pub mod Hash
pub mod HashDict
pub mod Codec
pub mod Leb128
pub mod Chunk
pub mod Graph
pub mod Wire
pub mod Record
