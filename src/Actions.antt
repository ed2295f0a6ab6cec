-- ===== src/Actions.antt =====
-- The actions package: what a transaction can do to the chain's state.
pub mod Transfer
pub mod CrossRegion
pub mod Attestations
pub mod Shuttle
pub mod Region
