-- ===== src/Sync/Engine/Ticking.antt =====
-- The callback of the polling timer in setupRealtimeMode, and recoverRealtimeConfigs, which starts
-- the timers again after a restart of the process.
use db_backup.Prelude.{
  ℕ, String, ◌==◌, Bool, true, false, not, ◌&&◌, Option, none, some, List, [], ◌∷◌, if◌then◌else◌,
  any, get, remove,
}
use db_backup.Sync.Values.{ChangeLog}
use db_backup.Sync.Engine.{
  active, realtime, SyncConfig, SyncState, World, Services, world_of, given,
}
use db_backup.Sync.Engine.Modes.{setup_realtime_mode, clear_timer}
use db_backup.Sync.Engine.Activation.{job_of}
use db_backup.Sync.Engine.Trigger.{trigger_sync}

abbrev pub is_realtime : SyncConfig → Bool
is_realtime c = elim c.mode [ realtime ↦ true | _ ↦ false ]

abbrev pub is_some {ℓ} : {A : Type ℓ} → Option A → Bool
is_some none = false
is_some (some a) = true

-- `changeCount > 0`
unfoldable pub has_changes : String → List ChangeLog → Bool
has_changes id = any (λ log. log.sync_config_id == id && not log.synchronized)

unfoldable pub stop_timer : ℕ → String → World → World
unfolding clear_timer
stop_timer t id w = record w { timers = clear_timer t w.timers; intervals = remove w.intervals id }

-- One call of the timer `t` of the configuration; errors are logged only.
unfoldable pub tick : Services → ℕ → String → World → World
unfolding has_changes given stop_timer
tick services t id w = elim (get w.configs id) [
  | none ↦ stop_timer t id w
  | some c ↦
      if c.is_active && is_realtime c
      then (if is_some (given (job_of (get w.states id)))
          then w
          else if has_changes id w.logs
          then world_of (trigger_sync services id false w)
          else w)
      else stop_timer t id w
]

abbrev pub is_status_active : Option SyncState → Bool
is_status_active none = false
is_status_active (some s) = elim s.status [ active ↦ true | _ ↦ false ]

unfoldable pub recover_one : String → World → World
recover_one id w = elim (get w.configs id) [
  | none ↦ w
  | some c ↦
      if c.is_active && is_realtime c && is_status_active (get w.states id)
      then setup_realtime_mode id w
      else w
]

-- over the configurations that the query lists
unfoldable pub recover_realtime_configs : List String → World → World
unfolding recover_one
recover_realtime_configs [] w = w
recover_realtime_configs (id ∷ ids) w = recover_realtime_configs ids (recover_one id w)

-- The process ends with its timers and starts again.
unfoldable pub restart : List String → World → World
unfolding recover_realtime_configs
restart ids w = recover_realtime_configs ids (record w { timers = []; intervals = [] })
