-- ===== src/Sync/Engine.antt =====
-- SyncEngineService of server/src/services/sync/sync-engine.service.ts: the life of a configuration.
-- The tables, the sync queue, the timers of the process and the job schedulers are one state; what
-- databases, queue and clock answer is a record of parameters. The texts of errors and logs are not
-- modelled.
pub mod Modes
pub mod Configs
pub mod Trigger
pub mod Activation
pub mod Ticking
pub mod Reach
pub mod Keeping
pub mod Preserved
pub mod Kept
pub mod Started
pub mod Activated
pub mod Paused
pub mod Timed
pub mod Jobs
pub mod Laws
pub mod Cycle
pub mod Worker
use db_backup.Prelude.{
  ℕ, String, ◌==◌, Bool, true, false, ◌&&◌, Option, none, some, List, [], ◌∷◌, if◌then◌else◌, eqb,
  select, Map, get, put,
}
use db_backup.Sync.Values.{ChangeLog, Origin}
use db_backup.Sync.Conflicts.{Strategy}

pub data DatabaseType : Type 0 where
  mysql mariadb postgresql mongodb redis : DatabaseType

pub record Connection : Type 0 where
  pub id : String
  pub user_id : String
  pub kind : DatabaseType

pub data Direction : Type 0 where
  unidirectional bidirectional : Direction

pub data Mode : Type 0 where
  realtime scheduled manual : Mode

pub data Status : Type 0 where
  active paused failed stopped : Status

-- a row of the configurations, joined with its two connections
pub record SyncConfig : Type 0 where
  pub user_id : String
  pub name : String
  pub source_connection : Connection
  pub target_connection : Connection
  pub direction : Direction
  pub mode : Mode
  pub conflict_strategy : Strategy
  pub include_tables : List String
  pub exclude_tables : List String
  pub cron_expression : Option String
  pub batch_size : ℕ
  pub parallel_tables : ℕ
  pub is_active : Bool

pub record SyncState : Type 0 where
  pub status : Status
  pub source_checkpoint : Option String
  pub target_checkpoint : Option String
  pub current_job_id : Option String
  pub next_sync_at : Option ℕ
  pub consecutive_failures : ℕ
  pub current_progress : ℕ
  pub current_table : Option String
  pub last_sync_at : Option ℕ
  pub total_rows_synced : ℕ
  pub last_sync_duration : Option ℕ
  pub average_sync_duration : Option ℕ
  pub last_error : Option String
  pub last_error_at : Option ℕ

pub data JobState : Type 0 where
  waiting delayed processing completed errored other : JobState

pub record Job : Type 0 where
  pub config_id : String
  pub full : Bool
  pub state : JobState

-- `timers` are the intervals that run, with their configuration; `intervals` is the service's own
-- map of them. A state row belongs to one configuration and stands under its id.
pub record World : Type 0 where
  pub connections : Map Connection
  pub configs : Map SyncConfig
  pub states : Map SyncState
  pub logs : List ChangeLog
  pub jobs : Map Job
  pub next_timer : ℕ
  pub timers : List (ℕ × String)
  pub intervals : Map ℕ
  pub schedulers : Map String
  pub source_tracking : List String
  pub target_tracking : List String

-- What is answered from outside: whether a database can be reached, whether two schemas agree,
-- whether the triggers can be installed or removed, the checkpoints, the id of a new job (or no
-- queue), whether a job can be looked up or cancelled, whether a job scheduler can be added, and
-- the next time of a cron expression.
pub record Services : Type 0 where
  pub new_config : Map SyncConfig → String
  pub accessible : Connection → Bool
  pub schemas_agree : SyncConfig → Bool
  pub initializes : SyncConfig → Origin → Bool
  pub tears_down : SyncConfig → Origin → Bool
  pub checkpoint : SyncConfig → Origin → Option String
  pub add_job : Map Job → Option String
  pub finds_job : String → Bool
  pub cancels : String → Bool
  pub adds_scheduler : String → Bool
  pub next_run : String → Option ℕ

pub data Reason : Type 0 where
  not_found source_not_found target_not_found not_owner_of_source not_owner_of_target : Reason
  same_connection source_inaccessible target_inaccessible is_active already_active : Reason
  not_active not_paused no_state duplicate_state schema_mismatch unsupported : Reason
  tracking_error no_cron bad_cron queue_error initial_sync_error already_running : Reason

-- `refused` carries the state in which the exception leaves the tables.
pub data Outcome (A : Type 0) : Type 0 where
  done : World → A → Outcome A
  refused : World → Reason → Outcome A

infixl 5 ◌and_then◌
abbrev pub ◌and_then◌ : {A B : Type 0} → Outcome A → (World → A → Outcome B) → Outcome B
done w a and_then k = k w a
refused w r and_then k = refused w r

abbrev pub world_of : {A : Type 0} → Outcome A → World
world_of (done w a) = w
world_of (refused w r) = w

-- a text that is there and not empty, as `if (text)` asks
unfoldable pub given : Option String → Option String
given none = none
given (some t) = if t == "" then none else some t

-- `prisma.syncState.update`, which throws where there is no row
unfoldable pub update_state : String → (SyncState → SyncState) → World → Outcome Unit
update_state id change w = elim (get w.states id) [
  | none ↦ refused w no_state
  | some s ↦ done (record w { states = put w.states id (change s) }) tt
]

-- `prisma.syncConfiguration.update` of the flag
unfoldable pub set_active : String → Bool → World → Outcome Unit
set_active id on w = elim (get w.configs id) [
  | none ↦ refused w not_found
  | some c ↦ done (record w { configs = put w.configs id (record c { is_active = on }) }) tt
]
