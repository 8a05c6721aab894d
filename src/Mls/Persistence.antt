-- ===== src/Mls/Persistence.antt =====
-- MLS persistence: apps/mls-service/src/sync/persistence.ts and media.ts.
pub mod Rows
pub mod Write
pub mod Process
pub mod Attempts
pub mod Safe
pub mod Run
pub mod Gates
mod Examples
pub mod Media
pub mod Written
