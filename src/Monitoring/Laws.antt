-- ===== src/Monitoring/Laws.antt =====
-- When the checks raise an alert, and for whom they run.
use db_backup.Prelude.{
  ℕ, ◌+◌, ◌-◌, ◌≤◌, ◌<◌, String, ◌≡◌, refl, ◌⊎◌, true, not, ◌&&◌, Option, List, [], ◌∷◌, append-nil,
  arith, eq_iff, leb, if◌then◌else◌, All, Map, get-put, get-remove,
}
use db_backup.Monitoring.{
  re_alert_ms, check_throttle_ms, UsageInfo, is_below, alert_if_over, Monitor, run_storage_checks,
  run_backup_watchdog, Turn, check_user, check_users,
}

-- the clock goes from the first turn on, for less than an hour
abbrev pub SameHour : Turn → List Turn → Type 0
SameHour first = All (λ turn.
    (turn.storage_at < first.storage_at + check_throttle_ms)
    × (turn.watchdog_at < first.watchdog_at + check_throttle_ms))

skipped :
    (threshold : ℕ) (turns : List Turn) (m : Monitor)
    → All
        (λ turn.
          (turn.storage_at < m.storage_checked_at + check_throttle_ms)
          × (turn.watchdog_at < m.backups_checked_at + check_throttle_ms))
        turns
    → check_users threshold turns m ≡ (m, [])
unfolding check_users check_user run_storage_checks run_backup_watchdog
skipped threshold [] m h = refl
skipped threshold (turn ∷ turns) m h = ground (arith, h.0, skipped threshold turns m h.1)

check_user-times :
    (threshold : ℕ) (turn : Turn) (m : Monitor)
    → m.storage_checked_at + check_throttle_ms ≤ turn.storage_at
    → m.backups_checked_at + check_throttle_ms ≤ turn.watchdog_at
    → ((check_user threshold turn m).0.storage_checked_at ≡ turn.storage_at)
      × ((check_user threshold turn m).0.backups_checked_at ≡ turn.watchdog_at)
unfolding check_user run_storage_checks run_backup_watchdog
check_user-times threshold turn m storage_due watchdog_due = ground arith

-- If both checks are due at the first user's turn and the turns of the others come within the hour,
-- the whole round leaves the state and raises the alerts of the first user's turn alone: the other
-- users' storage and backups are not checked.
pub check_users-first :
    (threshold : ℕ) (first : Turn) (turns : List Turn) (m : Monitor)
    → m.storage_checked_at + check_throttle_ms ≤ first.storage_at
    → m.backups_checked_at + check_throttle_ms ≤ first.watchdog_at
    → SameHour first turns
    → check_users threshold (first ∷ turns) m ≡ check_user threshold first m
unfolding check_users
check_users-first threshold first turns m storage_due watchdog_due hour =
    let times = check_user-times threshold first m storage_due watchdog_due in
    let others =
      skipped threshold turns (check_user threshold first m).0 (rw (times.0, times.1) hour) in
    rw (others, append-nil (check_user threshold first m).1) refl

-- After an alert of a provider was sent, the next call sends one exactly if the usage is not below
-- the threshold and a day has passed; after a call with a usage below the threshold, exactly if it
-- is not below and the clock shows a day or more.
pub alert_if_over-next :
    (threshold now later : ℕ) (key : String) (usage usage' : Option UsageInfo) (alerts : Map ℕ)
    → ((alert_if_over threshold now key usage alerts).1 ≡ true) ⊎ (is_below threshold usage ≡ true)
    → (alert_if_over threshold later key usage' (alert_if_over threshold now key usage alerts).0).1
      ≡ (not (is_below threshold usage')
          && leb re_alert_ms (later - (if is_below threshold usage then 0 else now)))
unfolding alert_if_over
alert_if_over-next threshold now later key usage usage' alerts before =
    ground (arith, before, get-put alerts key key now, get-remove alerts key key, eq_iff key key)
