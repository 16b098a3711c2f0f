-- ===== src/Storage/Quota/Laws.antt =====
-- What the quota promises.
use db_backup.Prelude.{ℕ, ◌≤◌, String, ◌≡◌, true, some, List, ◌∷◌, arith, eq_iff}
use db_backup.Storage.Retention.{Backup}
use db_backup.Storage.Quota.{get_quota_usage, assert_quota_allows_file}

-- A file that the quota admits keeps the user within it: once the completed backup with that size
-- is stored, the usage is at most the quota, and every smaller file would have been admitted too.
pub assert_quota_allows_file-le :
    (backups : List Backup) (user : String) (quota incoming : ℕ) (b : Backup)
    → assert_quota_allows_file backups user (some quota) incoming ≡ true
    → b.user_id ≡ user
    → b.file_size ≤ incoming
    → ((get_quota_usage (b ∷ backups) user (some quota)).used_bytes ≤ quota)
      × (assert_quota_allows_file backups user (some quota) b.file_size ≡ true)
unfolding assert_quota_allows_file get_quota_usage
assert_quota_allows_file-le backups user quota incoming b allowed own small =
    (ground (arith, eq_iff b.user_id user), ground arith)
