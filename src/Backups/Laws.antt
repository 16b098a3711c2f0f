-- ===== src/Backups/Laws.antt =====
-- From the dump to the restore: what a finished backup job stored is what a restore job hands over.
pub mod Copies
pub mod Stored
pub mod Restored
pub mod Settled
pub mod Lost
