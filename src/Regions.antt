-- ===== src/Regions.antt =====
-- The regions package: the configuration of a region, and the balancer that chooses among regions and
-- among the pairs of one.
pub mod Config
pub mod Manager
pub mod Balancer
pub mod Metrics
pub mod States
pub mod Health
