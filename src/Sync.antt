-- ===== src/Sync.antt =====
-- Database synchronisation: server/src/services/sync and server/src/queue/sync.
pub mod TableOrder
pub mod Values
pub mod Keys
pub mod Conflicts
pub mod Validation
pub mod Sanitation
pub mod Apply
pub mod Incremental
pub mod Full
pub mod Engine
pub mod Cdc
pub mod Schema
