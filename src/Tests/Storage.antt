-- ===== src/Tests/Storage.antt =====
-- Three backups, two of them without a connection, and a policy that deletes.
use db_backup.Prelude.{
  ℕ, ◌≤◌, String, ◌≡◌, refl, not, Option, none, some, List, [], ◌∷◌, select, count, get, nan,
  natural,
}
use db_backup.Storage.Retention.{
  Backup, Policy, Schedule, is_mine, backup_ids, by_age, by_count, to_delete,
  enforce_retention_for_connection, env_default_retention, get_retention_policy, first_of_each,
  sweep, run_global_retention_sweep, completed,
}
use db_backup.Storage.Retention.Laws.{
  is_due, enforce_retention_for_connection-kept, enforce_retention_for_connection-le,
}

abbrev backup : String → Option String → String → ℕ → Backup
backup id connection user at = record {
  id = id;
  connection_id = connection;
  user_id = user;
  status = completed;
  created_at = at;
  file_size = 10;
}

abbrev ann_old : Backup
ann_old = backup "1" none "ann" 5

abbrev bob_old : Backup
bob_old = backup "2" none "bob" 6

abbrev ann_kept : Backup
ann_kept = backup "3" (some "main") "ann" 86400050

abbrev stored : List Backup
stored = ann_old ∷ bob_old ∷ ann_kept ∷ []

abbrev one_day : Policy
one_day = record { retention_days = 1; retention_count = none }

abbrev as_listed : List Backup → List Backup
as_listed bs = bs

enforce_retention_for_connection-kept_example :
    (enforce_retention_for_connection as_listed 86400100 none one_day stored).backups
    ≡ select (λ b. not (is_due as_listed 86400100 none one_day stored b)) stored
enforce_retention_for_connection-kept_example =
    enforce_retention_for_connection-kept as_listed (λ p bs. refl) 86400100 none one_day stored
      (refl, (refl, (refl, tt)))

enforce_retention_for_connection-le_example :
    count
      (is_mine none)
      (enforce_retention_for_connection as_listed 86400100 none
        (record { retention_days = 0; retention_count = some 1 })
        stored).backups
    ≤ 1
enforce_retention_for_connection-le_example =
    enforce_retention_for_connection-le as_listed (λ p bs. refl) 86400100 none 0 0 stored

-- Ann's sweep deletes Bob's backup.
sweep_of_ann :
    backup_ids (
      run_global_retention_sweep as_listed
        (record { days = natural 1; count = nan })
        []
        []
        86400100
        (some "ann")
        stored)
    ≡ "3" ∷ []
unfolding run_global_retention_sweep first_of_each sweep get_retention_policy env_default_retention
    enforce_retention_for_connection to_delete by_age by_count get
sweep_of_ann = refl

abbrev weekly : Schedule
weekly = record { connection_id = "main"; retention_days = 7; retention_count = some 5 }

abbrev daily : Schedule
daily = record { connection_id = "main"; retention_days = 1; retention_count = none }
