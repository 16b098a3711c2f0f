-- ===== src/Sync/Engine/Reach.antt =====
-- The states that the service can reach: its operations (a new configuration gets an id that is not
-- in use), the ticks of its timers, its restarts,
-- the jobs of the worker, and what happens beside it in the change log and in the queue.
use db_backup.Prelude.{
  ℕ, String, ◌==◌, ◌≡◌, Bool, true, false, not, ◌&&◌, Option, none, some, List, [], eqb, any,
  Distinct, Map, get,
}
use db_backup.Sync.Values.{ChangeLog}
use db_backup.Sync.Engine.{Connection, SyncConfig, SyncState, Job, World, Services, world_of}
use db_backup.Sync.Engine.Configs.{
  CreateSyncConfigDto, create_sync_configuration, UpdateSyncConfigDto, update_sync_configuration,
  delete_sync_configuration,
}
use db_backup.Sync.Engine.Trigger.{trigger_sync}
use db_backup.Sync.Engine.Activation.{
  is_paused, activate_sync_configuration, pause_sync_configuration, resume_sync_configuration,
  stop_sync_configuration,
}
use db_backup.Sync.Engine.Worker.{Ran, SyncHistory, run_sync_job}
use db_backup.Sync.Engine.Ticking.{is_realtime, is_some, tick, restart}

abbrev pub nothing_yet : Map Connection → World
nothing_yet connections = record {
  connections = connections;
  configs = [];
  states = [];
  logs = [];
  jobs = [];
  next_timer = 0;
  timers = [];
  intervals = [];
  schedulers = [];
  source_tracking = [];
  target_tracking = [];
}

pub data Step (services : Services) : World → World → Type 0 where
  create :
      (dto : CreateSyncConfigDto) (w : World)
      → get w.configs (services.new_config w.configs) ≡ none
      → Step services w (world_of (create_sync_configuration services dto w))
  update :
      (id : String) (dto : UpdateSyncConfigDto) (w : World)
      → Step services w (world_of (update_sync_configuration id dto w))
  delete : (id : String) (w : World) → Step services w (world_of (delete_sync_configuration id w))
  activate :
      (id : String) (initial : Bool) (w : World)
      → Step services w (world_of (activate_sync_configuration services id initial w))
  pause :
      (id : String) (w : World)
      → Step services w (world_of (pause_sync_configuration services id w))
  resume :
      (id : String) (w : World)
      → Step services w (world_of (resume_sync_configuration services id w))
  stop :
      (id : String) (w : World) → Step services w (world_of (stop_sync_configuration services id w))
  trigger :
      (id : String) (force : Bool) (w : World)
      → Step services w (world_of (trigger_sync services id force w))
  ticking : (t : ℕ) (id : String) (w : World) → Step services w (tick services t id w)
  restarting : (ids : List String) (w : World) → Distinct ids → Step services w (restart ids w)
  capture : (logs : List ChangeLog) (w : World) → Step services w (record w { logs = logs })
  run_job :
      (expired : ChangeLog → Bool) (run : World → Ran) (id name : String) (began now : ℕ)
      (history : List SyncHistory) (w : World)
      → Step services w
          (run_sync_job expired run id name began now
            (record { world = w; history = history })).0.world
  work : (jobs : Map Job) (w : World) → Step services w (record w { jobs = jobs })

pub data Reachable (services : Services) : World → Type 0 where
  start : (connections : Map Connection) → Reachable services (nothing_yet connections)
  next : (w v : World) → Reachable services w → Step services w v → Reachable services v

abbrev pub has_timer : ℕ → String → List (ℕ × String) → Bool
has_timer t id = any (λ timer. eqb timer.0 t && timer.1 == id)

abbrev pub is_active_config : Option SyncConfig → Bool
is_active_config none = false
is_active_config (some c) = c.is_active

abbrev pub is_active_realtime : Option SyncConfig → Bool
is_active_realtime none = false
is_active_realtime (some c) = c.is_active && is_realtime c

abbrev pub is_paused_state : Option SyncState → Bool
is_paused_state none = false
is_paused_state (some s) = is_paused s

-- Every timer that runs is the registered one of its configuration; a configuration with a
-- registered timer is active, polls and is not paused; and exactly the active ones have a row of
-- their state.
pub record WellFormed (w : World) : Type 0 where
  pub registered :
      (t : ℕ) (id : String) → has_timer t id w.timers ≡ true → get w.intervals id ≡ some t
  pub working :
      (t : ℕ) (id : String)
      → get w.intervals id ≡ some t
      → (is_active_realtime (get w.configs id) && not (is_paused_state (get w.states id))) ≡ true
  pub rows : (id : String) → is_some (get w.states id) ≡ is_active_config (get w.configs id)
