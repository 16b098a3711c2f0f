-- ===== src/Monitoring.antt =====
-- The periodic checks of the heartbeat worker: runStorageChecks and alertIfOver of
-- server/src/services/storage-alerts.service.ts, runBackupWatchdog of
-- server/src/services/backup-watchdog.service.ts, and the loop over the users in
-- server/src/queue/heartbeat.queue.ts. The measurements are parameters; a percentage is a fraction.
-- The texts of alerts are not modelled.
pub mod Laws
use db_backup.Prelude.{
  ℕ, zero, suc, ◌+◌, ◌-◌, ◌*◌, String, ◌==◌, Bool, true, false, ◌||◌, Option, none, some, List, [],
  ◌∷◌, ◌++◌, if◌then◌else◌, ltb, leb, eqb, Map, get, put, remove, or_else,
}

abbrev pub re_alert_ms : ℕ
re_alert_ms = 86400000

abbrev pub check_throttle_ms : ℕ
check_throttle_ms = 3600000

-- `percent` is `part / whole * 100`; `none` where it is null
pub record UsageInfo : Type 0 where
  pub part : ℕ
  pub whole : ℕ

-- `!usage?.percent || usage.percent < THRESHOLD`
unfoldable pub is_below : ℕ → Option UsageInfo → Bool
is_below threshold none = true
is_below threshold (some u) = eqb u.part 0 || ltb (u.part * 100) (threshold * u.whole)

-- `now - (lastAlertAt.get(key) ?? 0) < RE_ALERT_MS`
abbrev pub is_recent : Map ℕ → String → ℕ → Bool
is_recent alerts key now = ltb (now - or_else (get alerts key) 0) re_alert_ms

-- the times of the last alerts, and whether this one is sent
unfoldable pub alert_if_over : ℕ → ℕ → String → Option UsageInfo → Map ℕ → Map ℕ × Bool
unfolding is_below
alert_if_over threshold now key usage alerts =
    if is_below threshold usage
    then (remove alerts key, false)
    else if is_recent alerts key now
    then (alerts, false)
    else (put alerts key now, true)

pub record Watched : Type 0 where
  pub id : String
  pub expected_hours : Option ℕ
  pub created_at : ℕ
  pub last_completed : Option ℕ

abbrev pub hour_ms : ℕ
hour_ms = 3600000

-- `ageHours <= hours`
abbrev pub is_fresh : ℕ → ℕ → Watched → Bool
is_fresh now hours conn = leb (now - or_else conn.last_completed conn.created_at) (hours * hour_ms)

unfoldable pub watch_connection : ℕ → Watched → Map ℕ → Map ℕ × List String
watch_connection now conn alerts = elim conn.expected_hours [
  | none ↦ (alerts, [])
  | some zero ↦ (alerts, [])
  | some (suc h) ↦
      if is_fresh now (suc h) conn
      then (remove alerts conn.id, [])
      else if is_recent alerts conn.id now
      then (alerts, [])
      else (put alerts conn.id now, conn.id ∷ [])
]

unfoldable pub watch_all : ℕ → List Watched → Map ℕ → Map ℕ × List String
watch_all now [] alerts = (alerts, [])
watch_all now (conn ∷ conns) alerts =
    let here = watch_connection now conn alerts in
    let rest = watch_all now conns here.0 in (rest.0, here.1 ++ rest.1)

-- the variables of the two modules
pub record Monitor : Type 0 where
  pub storage_checked_at : ℕ
  pub storage_alerts : Map ℕ
  pub backups_checked_at : ℕ
  pub backup_alerts : Map ℕ

-- what is measured of a user: the four usages and the connections with an expectation
pub record Measured : Type 0 where
  pub local : Option UsageInfo
  pub gdrive : Option UsageInfo
  pub s3 : Option UsageInfo
  pub quota : Option UsageInfo
  pub connections : List Watched

-- the alerts of one user
pub data Alert : Type 0 where
  storage : (user key : String) → Alert
  missed_backup : (user connection : String) → Alert

abbrev pub storage_alert : String → String → Bool → List Alert
storage_alert user key sent = if sent then storage user key ∷ [] else []

abbrev pub missed : String → List String → List Alert
missed user [] = []
missed user (id ∷ ids) = missed_backup user id ∷ missed user ids

-- the quota is looked at only where the user has one
unfoldable pub alert_quota : ℕ → ℕ → Option UsageInfo → Map ℕ → Map ℕ × Bool
unfolding alert_if_over
alert_quota threshold now none alerts = (alerts, false)
alert_quota threshold now (some u) alerts = alert_if_over threshold now "quota" (some u) alerts

unfoldable pub run_storage_checks : ℕ → ℕ → String → Measured → Monitor → Monitor × List Alert
unfolding alert_if_over alert_quota
run_storage_checks threshold now user seen m =
    if ltb (now - m.storage_checked_at) check_throttle_ms
    then (m, [])
    else (let local = alert_if_over threshold now "local" seen.local m.storage_alerts in
        let gdrive = alert_if_over threshold now "gdrive" seen.gdrive local.0 in
        let s3 = alert_if_over threshold now "s3" seen.s3 gdrive.0 in
        let quota = alert_quota threshold now seen.quota s3.0 in
        (
          record m { storage_checked_at = now; storage_alerts = quota.0 },
          storage_alert user "local" local.1
              ++ storage_alert user "gdrive" gdrive.1
              ++ storage_alert user "s3" s3.1
              ++ storage_alert user "quota" quota.1,
        ))

unfoldable pub run_backup_watchdog : ℕ → String → List Watched → Monitor → Monitor × List Alert
unfolding watch_all
run_backup_watchdog now user conns m =
    if ltb (now - m.backups_checked_at) check_throttle_ms then (m, []) else (
      record m {
        backups_checked_at = now;
        backup_alerts = (watch_all now conns m.backup_alerts).0;
      },
      missed user (watch_all now conns m.backup_alerts).1,
    )

-- one user's turn: the time of the storage check and that of the watchdog
pub record Turn : Type 0 where
  pub user : String
  pub seen : Measured
  pub storage_at : ℕ
  pub watchdog_at : ℕ

unfoldable pub check_user : ℕ → Turn → Monitor → Monitor × List Alert
unfolding run_storage_checks run_backup_watchdog
check_user threshold turn m =
    let stored = run_storage_checks threshold turn.storage_at turn.user turn.seen m in
    let watched = run_backup_watchdog turn.watchdog_at turn.user turn.seen.connections stored.0 in
    (watched.0, stored.1 ++ watched.1)

-- the loop of the worker over all users
unfoldable pub check_users : ℕ → List Turn → Monitor → Monitor × List Alert
unfolding check_user
check_users threshold [] m = (m, [])
check_users threshold (turn ∷ turns) m =
    let here = check_user threshold turn m in
    let rest = check_users threshold turns here.0 in (rest.0, here.1 ++ rest.1)
