-- ===== src/TimeServer.antt =====
-- The timeserver package: signed timestamps and a quorum of time servers.
pub mod Server
pub mod Network
