-- ===== src/Storage.antt =====
-- Stored backups: server/src/services/retention.service.ts and server/src/services/quota.service.ts.
pub mod Retention
pub mod Quota
