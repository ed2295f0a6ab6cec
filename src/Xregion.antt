-- ===== src/Xregion.antt =====
-- The coordination/xregion package: intents of transactions that change several regions.
pub mod Intent
