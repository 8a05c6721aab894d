-- ===== src/Mls.antt =====
-- The MLS replication service, apps/mls-service/src.
pub mod Value
pub mod Metrics
pub mod Sync
pub mod Connector
pub mod Mappers
pub mod Roster
pub mod Persistence
pub mod Auth
