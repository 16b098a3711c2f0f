-- ===== src/Storage/Quota.antt =====
-- server/src/services/quota.service.ts: the storage quota of a user. Bytes are natural numbers; the
-- text of the message is not modelled.
pub mod Laws
use db_backup.Prelude.{
  ℕ, zero, suc, ◌+◌, ◌*◌, ◌/◌, String, ◌==◌, Bool, true, ◌&&◌, Option, none, some, List,
  if◌then◌else◌, leb, select, sum_by,
}
use db_backup.Storage.Retention.{Backup, is_completed}

pub record QuotaUsage : Type 0 where
  pub used_bytes : ℕ
  pub quota_bytes : Option ℕ
  pub percent : Option ℕ

-- `Math.round((used * 100) / quota)`, halves up
unfoldable pub percent_of : ℕ → Option ℕ → Option ℕ
percent_of used none = none
percent_of used (some zero) = none
percent_of used (some (suc q)) = some ((2 * (used * 100) + suc q) / (2 * suc q))

unfoldable pub get_quota_usage : List Backup → String → Option ℕ → QuotaUsage
unfolding percent_of
get_quota_usage backups user quota =
    let used =
      sum_by (λ b. b.file_size) (select (λ b. b.user_id == user && is_completed b) backups) in
    record { used_bytes = used; quota_bytes = quota; percent = percent_of used quota }

-- whether a file of the size may be stored
unfoldable pub assert_quota_allows_file : List Backup → String → Option ℕ → ℕ → Bool
unfolding get_quota_usage
assert_quota_allows_file backups user quota incoming =
    elim (get_quota_usage backups user quota).quota_bytes [
      | none ↦ true
      | some q ↦ leb ((get_quota_usage backups user quota).used_bytes + incoming) q
    ]
