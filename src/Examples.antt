-- ===== src/Examples.antt =====
-- Runs of the model at concrete inputs.
pub mod Ledger
pub mod Keys
pub mod Code
pub mod Time
pub mod Tasks
pub mod Coordination
pub mod Intents
pub mod Ranges
pub mod Objects
pub mod Batches
pub mod Regions
pub mod Storing
pub mod Nodes
