-- ===== src/Sync/Engine/Worker.antt =====
-- The job of the sync worker: createSyncWorker of server/src/queue/sync/sync.queue.ts, over the state
-- of the engine and the history of the runs. A run of either kind is taken by what it leaves behind.
-- Messages of progress during a run and mails are left out, and so is a configuration that is stopped while its
-- job runs.
pub mod Results
pub mod Polled
use db_backup.Prelude.{
  ℕ, ◌+◌, ◌-◌, ◌*◌, ◌/◌, String, ◌==◌, Bool, true, false, not, ◌&&◌, Option, none, some, List, [],
  ◌∷◌, ◌++◌, map, or_else, if◌then◌else◌, length, take, select, sum_by, get, put,
}
use db_backup.Sync.Values.{ChangeLog}
use db_backup.Sync.Engine.{
  active, failed, SyncState, World, not_found, no_state, Outcome, done, refused, ◌and_then◌,
  update_state,
}

pub record Totals : Type 0 where
  pub total_rows_synced : ℕ
  pub tables_processed : ℕ
  pub conflicts_detected : ℕ
  pub conflicts_resolved : ℕ

-- How a run ended, with the checkpoints that it left in the row: with its totals, with an error, or
-- with its totals and the error of publishing its completion. `lost` is the error of publishing a
-- failure, where that fails too.
pub data Ran : Type 0 where
  succeeded : Totals → (source_checkpoint target_checkpoint : Option String) → Ran
  threw : (message : String) → (lost source_checkpoint target_checkpoint : Option String) → Ran
  unpublished :
      Totals → (message : String) → (lost source_checkpoint target_checkpoint : Option String) → Ran

pub record SyncHistory : Type 0 where
  pub sync_config_id : String
  pub completed : Bool
  pub totals : Totals
  pub started_at : ℕ
  pub completed_at : ℕ
  pub duration : ℕ
  pub error : Option String

-- the state of the engine and the history, the newest run first
pub record Worked : Type 0 where
  pub world : World
  pub history : List SyncHistory

unfoldable pub started_row : String → SyncState → SyncState
started_row job s = record s {
  status = active;
  current_job_id = some job;
  current_progress = 0;
  current_table = none;
}

unfoldable pub checkpoints_row : Option String → Option String → SyncState → SyncState
checkpoints_row source target s = record s {
  source_checkpoint = source;
  target_checkpoint = target;
}

-- `Math.round(sum / length)`, halves up
unfoldable pub average : ℕ → List ℕ → ℕ
average d ds = let n = length ds + 1 in (2 * (d + sum_by (λ x. x) ds) + n) / (2 * n)

-- the durations of the nine newest runs of the configuration
unfoldable pub recent_durations : String → List SyncHistory → List ℕ
recent_durations id history =
    map (λ h. h.duration) (take 9 (select (λ h. h.sync_config_id == id) history))

unfoldable pub completed_row : Totals → ℕ → ℕ → ℕ → SyncState → SyncState
completed_row totals now duration mean s = record s {
  status = active;
  current_job_id = none;
  current_table = none;
  current_progress = 100;
  last_sync_at = some now;
  total_rows_synced = totals.total_rows_synced;
  last_sync_duration = some duration;
  average_sync_duration = some mean;
  consecutive_failures = 0;
  last_error = none;
  last_error_at = none;
}

unfoldable pub failed_row : String → ℕ → SyncState → SyncState
failed_row message now s = record s {
  status = failed;
  current_job_id = none;
  current_table = none;
  last_error = some message;
  last_error_at = some now;
  consecutive_failures = s.consecutive_failures + 1;
}

abbrev pub nothing : Totals
nothing = record {
  total_rows_synced = 0;
  tables_processed = 0;
  conflicts_detected = 0;
  conflicts_resolved = 0;
}

-- synchronized, and `expired`: synchronized longer ago than the change log is kept
unfoldable pub clean_up : (ChangeLog → Bool) → String → List ChangeLog → List ChangeLog
clean_up expired id =
    select (λ log. not (log.sync_config_id == id && log.synchronized && expired log))

abbrev pub row_put : String → SyncState → World → World
row_put id s w = record w { states = put w.states id s }

-- the row of a run with its totals
unfoldable pub totals_row :
    String → ℕ → ℕ → Totals → Option String → Option String → SyncState → Worked → SyncState
unfolding completed_row checkpoints_row average recent_durations
totals_row id start now totals source target s v =
    let mean = average (now - start) (recent_durations id v.history) in
    completed_row totals now (now - start) mean (checkpoints_row source target s)

-- the two entries of the history
abbrev pub completed_run : String → ℕ → ℕ → Totals → SyncHistory
completed_run id start now totals = record {
  sync_config_id = id;
  completed = true;
  totals = totals;
  started_at = start;
  completed_at = now;
  duration = now - start;
  error = none;
}

abbrev pub failed_run : String → ℕ → ℕ → String → SyncHistory
failed_run id start now message = record {
  sync_config_id = id;
  completed = false;
  totals = nothing;
  started_at = start;
  completed_at = now;
  duration = now - start;
  error = some message;
}

-- The end of the job: the row, the history, and the change log after a success. If the completion
-- cannot be published, the `catch` follows the row and the entry of the completed run.
unfoldable pub finish : (ChangeLog → Bool) → String → ℕ → ℕ → Ran → SyncState → Worked → Worked
unfolding totals_row failed_row checkpoints_row clean_up
finish expired id start now (succeeded totals source target) s v = record {
  world = record (row_put id (totals_row id start now totals source target s v) v.world) {
    logs = clean_up expired id v.world.logs;
  };
  history = completed_run id start now totals ∷ v.history;
}
finish expired id start now (threw message lost source target) s v = record {
  world = row_put id (failed_row message now (checkpoints_row source target s)) v.world;
  history = failed_run id start now message ∷ v.history;
}
finish expired id start now (unpublished totals message lost source target) s v = record {
  world =
      row_put id (failed_row message now (totals_row id start now totals source target s v))
        v.world;
  history = failed_run id start now message ∷ completed_run id start now totals ∷ v.history;
}

-- What the job answers to the queue: done, failed with the configuration or its row missing, or
-- failed with an error.
pub data JobResult : Type 0 where
  completed missing_config missing_state : JobResult
  rethrown : String → JobResult

abbrev pub result_of : Ran → JobResult
result_of (succeeded totals source target) = completed
result_of (threw message lost source target) = rethrown (or_else lost message)
result_of (unpublished totals message lost source target) = rethrown (or_else lost message)

-- `run` is what the run of the configuration does in the state in which the job leaves it.
unfoldable pub run_sync_job :
    (ChangeLog → Bool) → (World → Ran) → String → String → ℕ → ℕ → Worked → Worked × JobResult
unfolding started_row finish
run_sync_job expired run id job start now v = elim (get v.world.configs id) [
  | none ↦ (v, missing_config)
  | some c ↦ elim (get v.world.states id) [
    | none ↦ (v, missing_state)
    | some s ↦
        let w = row_put id (started_row job s) v.world in
        (
          finish expired id start now (run w) (started_row job s) (record v { world = w }),
          result_of (run w),
        )
  ]
]
