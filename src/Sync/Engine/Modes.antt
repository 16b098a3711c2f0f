-- ===== src/Sync/Engine/Modes.antt =====
-- The parts that start and stop a configuration's work: change tracking (getCDCTracker), the
-- polling timer (setupRealtimeMode, cancelRealtimeMode), the job scheduler (setupScheduledMode,
-- cancelScheduledMode) and the job in the queue (cancelRunningJob).
use db_backup.Prelude.{
  ℕ, ◌+◌, String, ◌==◌, Bool, true, false, not, Option, none, some, List, ◌∷◌, if◌then◌else◌, eqb,
  select, add, get, put, remove,
}
use db_backup.Sync.Values.{Origin, source, target}
use db_backup.Sync.Engine.{
  DatabaseType, mysql, mariadb, postgresql, bidirectional, unidirectional, realtime, scheduled,
  manual, Connection, SyncConfig, waiting, delayed, processing, errored, Job, World, Services,
  no_cron, bad_cron, queue_error, unsupported, tracking_error, Outcome, done, refused, given,
  update_state,
}

unfoldable pub supports_tracking : DatabaseType → Bool
supports_tracking mysql = true
supports_tracking mariadb = true
supports_tracking postgresql = true
supports_tracking _ = false

abbrev pub connection_of : Origin → SyncConfig → Connection
connection_of source c = c.source_connection
connection_of target c = c.target_connection

-- `getCDCTracker(type)`, then what is done with the tracker
unfoldable pub with_tracker : Origin → SyncConfig → World → (World → Outcome Unit) → Outcome Unit
unfolding supports_tracking
with_tracker side c w k =
    if supports_tracking (connection_of side c).kind then k w else refused w unsupported

abbrev pub drop_text : String → List String → List String
drop_text id = select (λ t. not (t == id))

abbrev pub track : Origin → String → World → World
track source id w = record w { source_tracking = add w.source_tracking id }
track target id w = record w { target_tracking = add w.target_tracking id }

abbrev pub untrack : Origin → String → World → World
untrack source id w = record w { source_tracking = drop_text id w.source_tracking }
untrack target id w = record w { target_tracking = drop_text id w.target_tracking }

abbrev pub both_ways : SyncConfig → Bool
both_ways c = elim c.direction [ bidirectional ↦ true | unidirectional ↦ false ]

module _ (services : Services) where
  unfoldable pub initialize_tracking : Origin → String → SyncConfig → World → Outcome Unit
  unfolding with_tracker
  initialize_tracking side id c w = with_tracker side c w (λ v.
      if services.initializes c side then done (track side id v) tt else refused v tracking_error)

  unfoldable pub teardown_tracking : Origin → String → SyncConfig → World → Outcome Unit
  unfolding with_tracker
  teardown_tracking side id c w = with_tracker side c w (λ v.
      if services.tears_down c side then done (untrack side id v) tt else refused v tracking_error)

  -- `queue.add('sync', …)`
  unfoldable pub add_sync_job : String → Bool → World → Outcome String
  add_sync_job id full w = elim (services.add_job w.jobs) [
    | none ↦ refused w queue_error
    | some job ↦
        done
          (record w {
            jobs = put w.jobs job (record { config_id = id; full = full; state = waiting });
          })
          job
  ]

  unfoldable pub cancel_job : String → Job → World → World
  cancel_job id job w = elim job.state [
    | processing ↦
        if services.cancels id
        then record w { jobs = put w.jobs id (record job { state = errored }) }
        else w
    | waiting ↦ if services.cancels id then record w { jobs = remove w.jobs id } else w
    | delayed ↦ if services.cancels id then record w { jobs = remove w.jobs id } else w
    | _ ↦ w
  ]

  -- Every error of the queue is swallowed.
  unfoldable pub cancel_running_job : Option String → World → World
  unfolding cancel_job given
  cancel_running_job current w = elim (given current) [
    | none ↦ w
    | some id ↦
        if services.finds_job id
        then elim (get w.jobs id) [ none ↦ w | some job ↦ cancel_job id job w ]
        else w
  ]

  unfoldable pub note_next_run : String → String → World → Outcome Unit
  unfolding update_state
  note_next_run id cron w = elim (services.next_run cron) [
    | none ↦ refused w bad_cron
    | some at ↦ update_state id (λ s. record s { next_sync_at = some at }) w
  ]

  unfoldable pub setup_scheduled_mode : String → World → Outcome Unit
  unfolding given note_next_run
  setup_scheduled_mode id w = elim (get w.configs id) [
    | none ↦ refused w no_cron
    | some c ↦ elim (given c.cron_expression) [
      | none ↦ refused w no_cron
      | some cron ↦
          if services.adds_scheduler cron
          then note_next_run id cron (record w { schedulers = put w.schedulers id cron })
          else refused w queue_error
    ]
  ]

unfoldable pub setup_realtime_mode : String → World → World
setup_realtime_mode id w = record w {
  next_timer = w.next_timer + 1;
  timers = (w.next_timer, id) ∷ w.timers;
  intervals = put w.intervals id w.next_timer;
}

-- `clearInterval`
unfoldable pub clear_timer : ℕ → List (ℕ × String) → List (ℕ × String)
clear_timer t = select (λ timer. not (eqb timer.0 t))

unfoldable pub cancel_realtime_mode : String → World → World
unfolding clear_timer
cancel_realtime_mode id w = elim (get w.intervals id) [
  | none ↦ w
  | some t ↦ record w { timers = clear_timer t w.timers; intervals = remove w.intervals id }
]

unfoldable pub cancel_scheduled_mode : String → World → Outcome Unit
unfolding update_state
cancel_scheduled_mode id w =
    update_state id (λ s. record s { next_sync_at = none })
      (record w { schedulers = remove w.schedulers id })

-- what a start of the work does for each mode, and what its end does
unfoldable pub start_mode : Services → String → SyncConfig → World → Outcome Unit
unfolding given
start_mode services id c w = elim c.mode [
  | realtime ↦ done (setup_realtime_mode id w) tt
  | scheduled ↦ elim (given c.cron_expression) [
    | none ↦ done w tt
    | some cron ↦ setup_scheduled_mode services id w
  ]
  | manual ↦ done w tt
]

unfoldable pub cancel_mode : String → SyncConfig → World → Outcome Unit
cancel_mode id c w = elim c.mode [
  | realtime ↦ done (cancel_realtime_mode id w) tt
  | scheduled ↦ cancel_scheduled_mode id w
  | manual ↦ done w tt
]
