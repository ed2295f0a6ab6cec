-- ===== src/Storage.antt =====
-- The storage package: the key layouts, balances, objects and regions in the chain's state.
pub mod State
pub mod Words
pub mod Balance
pub mod Fees
pub mod Keys
pub mod Codec
pub mod Objects
pub mod Coordinated
pub mod Stores
pub mod Manager
pub mod RegionStates
