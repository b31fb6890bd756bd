-- ===== src/Tests.antt =====
-- The theorems of the library at concrete inputs.
pub mod Recording
pub mod Converting
pub mod Pools
pub mod HashpipeRuns
pub mod GuppiPackets
pub mod Outputs
