-- ===== src/Core.antt =====
-- The core package: the types and the regional keys that other packages share.
pub mod Types
pub mod StateManager
pub mod RegionalKey
