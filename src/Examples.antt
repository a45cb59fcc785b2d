-- ===== src/Examples.antt =====
-- The theorems at concrete inputs.
pub mod Samples
pub mod WireSamples
pub mod WirePoints
pub mod WireExamples
pub mod CommitExamples
pub mod StoreExamples
pub mod BatchExamples
