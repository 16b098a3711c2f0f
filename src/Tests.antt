-- ===== src/Tests.antt =====
-- Runs of the model at concrete inputs, and the theorems applied to them.
mod Auth
mod Sync
mod Engine
mod Storage
mod Monitoring
mod Worker
mod Full
mod Mcp
mod Cdc
mod Apply
mod Schema
mod Backups
mod KeyManager
mod Sessions
