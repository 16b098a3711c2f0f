-- ===== src/Tests/Monitoring.antt =====
-- Two users in one round of the checks.
use db_backup.Prelude.{◌≡◌, refl, none, some, [], ◌∷◌, get, remove}
use db_backup.Monitoring.{
  is_below, alert_if_over, Watched, watch_connection, watch_all, Monitor, Measured, alert_quota,
  run_storage_checks, run_backup_watchdog, Turn, check_user, check_users, missed_backup,
}

abbrev unseen : Measured
unseen = record { local = none; gdrive = none; s3 = none; quota = none; connections = [] }

abbrev overdue : Watched
overdue = record { id = "db"; expected_hours = some 1; created_at = 0; last_completed = none }

abbrev ann : Turn
ann = record { user = "ann"; seen = unseen; storage_at = 90000000; watchdog_at = 90000001 }

abbrev bob : Turn
bob = record {
  user = "bob";
  seen = record unseen { connections = overdue ∷ [] };
  storage_at = 90000002;
  watchdog_at = 90000003;
}

abbrev begin : Monitor
begin = record {
  storage_checked_at = 0;
  storage_alerts = [];
  backups_checked_at = 0;
  backup_alerts = [];
}

bob_alone : (check_users 80 (bob ∷ []) begin).1 ≡ missed_backup "bob" "db" ∷ []
unfolding check_users check_user run_storage_checks run_backup_watchdog watch_all watch_connection
    alert_if_over alert_quota is_below get
bob_alone = refl

bob_after_ann : (check_users 80 (ann ∷ bob ∷ []) begin).1 ≡ []
unfolding check_users check_user run_storage_checks run_backup_watchdog watch_all watch_connection
    alert_if_over alert_quota is_below get remove
bob_after_ann = refl
