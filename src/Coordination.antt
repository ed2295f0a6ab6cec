-- ===== src/Coordination.antt =====
-- The coordination package: workers, the channels between them, tasks and the TEE pairs of regions.
pub mod Types
pub mod Channel
pub mod Wrapper
pub mod MerkleStorage
pub mod Worker
pub mod State
pub mod Tasks
pub mod Pairs
pub mod Registry
pub mod RangeCache
