-- ===== src/Sync/Engine/Trigger.antt =====
-- triggerSync and performFullSync.
use db_backup.Prelude.{String, ◌==◌, Bool, true, false, Option, none, some, if◌then◌else◌, get, put}
use db_backup.Sync.Engine.{
  active, SyncState, completed, errored, Job, World, Services, not_found, not_active, no_state,
  already_running, Outcome, done, refused, ◌and_then◌, given, update_state,
}
use db_backup.Sync.Engine.Modes.{add_sync_job}

-- gone, completed or failed
unfoldable pub is_stale : Option Job → Bool
is_stale none = true
is_stale (some job) = elim job.state [ completed ↦ true | errored ↦ true | _ ↦ false ]

abbrev pub is_job : String → Option String → Bool
is_job id none = false
is_job id (some j) = j == id

-- `updateMany` of the row, if its job is still `job`: the new state, and whether there was one
unfoldable pub clear_stale : String → String → World → World × Bool
clear_stale id job w = elim (get w.states id) [
  | none ↦ (w, false)
  | some s ↦
      if is_job job s.current_job_id
      then (record w { states = put w.states id (record s { current_job_id = none }) }, true)
      else (w, false)
]

-- the check for a job that runs already; a queue that cannot be asked counts as no job
unfoldable pub claim : Services → String → SyncState → World → Outcome Unit
unfolding given clear_stale is_stale
claim services id s w = elim (given s.current_job_id) [
  | none ↦ done w tt
  | some job ↦
      if services.finds_job job
      then (if is_stale (get w.jobs job)
          then (if (clear_stale id job w).1
              then done (clear_stale id job w).0 tt
              else refused w already_running)
          else refused w already_running)
      else done (clear_stale id job w).0 tt
]

-- the job and the note of it
unfoldable pub enqueue : Services → String → Bool → World → Outcome String
enqueue services id force w = add_sync_job services id force w and_then λ v job.
    update_state id (λ s. record s { current_job_id = some job; status = active }) v and_then λ u _.
    done u job

unfoldable pub trigger_sync : Services → String → Bool → World → Outcome String
unfolding claim enqueue
trigger_sync services id force w = elim (get w.configs id) [
  | none ↦ refused w not_found
  | some c ↦
      if c.is_active
      then elim (get w.states id) [
        | none ↦ refused w no_state
        | some s ↦ claim services id s w and_then λ v _. enqueue services id force v
      ]
      else refused w not_active
]

unfoldable pub perform_full_sync : Services → String → World → Outcome String
perform_full_sync services id w = trigger_sync services id true w
