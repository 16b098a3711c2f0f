-- ===== src/Sync/Engine/Activation.antt =====
-- activateSyncConfiguration, pauseSyncConfiguration, resumeSyncConfiguration and
-- stopSyncConfiguration.
use db_backup.Prelude.{
  String, Bool, true, false, Option, none, some, if◌then◌else◌, get, put, remove,
}
use db_backup.Sync.Values.{source, target}
use db_backup.Sync.Engine.{
  active, paused, SyncConfig, SyncState, World, Services, not_found, already_active, not_active,
  not_paused, no_state, duplicate_state, schema_mismatch, tracking_error, initial_sync_error,
  Outcome, done, refused, ◌and_then◌, set_active, update_state,
}
use db_backup.Sync.Engine.Modes.{
  both_ways, initialize_tracking, teardown_tracking, add_sync_job, cancel_running_job, start_mode,
  cancel_mode,
}

-- `prisma.syncState.create`
unfoldable pub create_state : String → Option String → Option String → World → Outcome Unit
create_state id source_checkpoint target_checkpoint w = elim (get w.states id) [
  | some s ↦ refused w duplicate_state
  | none ↦
      done
        (record w {
          states = put w.states id (record {
            status = active;
            source_checkpoint = source_checkpoint;
            target_checkpoint = target_checkpoint;
            current_job_id = none;
            next_sync_at = none;
            consecutive_failures = 0;
            current_progress = 0;
            current_table = none;
            last_sync_at = none;
            total_rows_synced = 0;
            last_sync_duration = none;
            average_sync_duration = none;
            last_error = none;
            last_error_at = none;
          });
        })
        tt
]

-- the row with the two checkpoints
unfoldable pub note_checkpoints : Services → String → SyncConfig → World → Outcome Unit
unfolding create_state
note_checkpoints services id c w = elim (services.checkpoint c source) [
  | none ↦ refused w tracking_error
  | some from ↦
      if both_ways c
      then elim (services.checkpoint c target) [
        | none ↦ refused w tracking_error
        | some back ↦ create_state id (some from) (some back) w
      ]
      else create_state id (some from) none w
]

abbrev pub is_paused : SyncState → Bool
is_paused s = elim s.status [ paused ↦ true | _ ↦ false ]

unfoldable pub pause_sync_configuration : Services → String → World → Outcome Unit
pause_sync_configuration services id w = elim (get w.configs id) [
  | none ↦ refused w not_found
  | some c ↦
      if c.is_active
      then elim (get w.states id) [
        | none ↦ refused w no_state
        | some s ↦
            update_state id (λ s. record s { status = paused; current_job_id = none }) w
            and_then λ v _. cancel_mode id c (cancel_running_job services s.current_job_id v)
      ]
      else refused w not_active
]

unfoldable pub resume_sync_configuration : Services → String → World → Outcome Unit
resume_sync_configuration services id w = elim (get w.configs id) [
  | none ↦ refused w not_found
  | some c ↦
      if c.is_active
      then elim (get w.states id) [
        | none ↦ refused w no_state
        | some s ↦
            if is_paused s
            then (update_state id (λ s. record s { status = active }) w and_then λ v _.
                start_mode services id c v)
            else refused w not_paused
      ]
      else refused w not_active
]

abbrev pub job_of : Option SyncState → Option String
job_of none = none
job_of (some s) = s.current_job_id

-- the tracking of both sides, the row and the flag
unfoldable pub shut_down : Services → String → SyncConfig → World → Outcome Unit
shut_down services id c w =
    teardown_tracking services source id c w
    and_then (λ v _. if both_ways c then teardown_tracking services target id c v else done v tt)
    and_then λ v _. set_active id false (record v { states = remove v.states id })

unfoldable pub stop_sync_configuration : Services → String → World → Outcome Unit
unfolding shut_down
stop_sync_configuration services id w = elim (get w.configs id) [
  | none ↦ refused w not_found
  | some c ↦
      if c.is_active
      then (cancel_mode id c (cancel_running_job services (job_of (get w.states id)) w)
          and_then λ v _. shut_down services id c v)
      else refused w not_active
]

-- the first job; if it cannot be queued, the activation is rolled back
unfoldable pub initial_sync : Services → String → Bool → World → Outcome Unit
initial_sync services id false w = done w tt
initial_sync services id true w = elim (add_sync_job services id true w) [
  | done v job ↦ done v tt
  | refused v r ↦ stop_sync_configuration services id v and_then λ u _. refused u initial_sync_error
]

-- the row, then the flag
unfoldable pub switch_on : Services → String → SyncConfig → World → Outcome Unit
unfolding note_checkpoints
switch_on services id c w = note_checkpoints services id c w and_then λ v _. set_active id true v

unfoldable pub activate_sync_configuration : Services → String → Bool → World → Outcome Unit
unfolding switch_on initial_sync
activate_sync_configuration services id perform_initial_sync w = elim (get w.configs id) [
  | none ↦ refused w not_found
  | some c ↦
      if c.is_active
      then refused w already_active
      else if services.schemas_agree c
      then (initialize_tracking services source id c w
          and_then (λ v _.
              if both_ways c then initialize_tracking services target id c v else done v tt)
          and_then (λ v _. switch_on services id c v)
          and_then (λ v _. initial_sync services id perform_initial_sync v)
          and_then λ v _. start_mode services id c v)
      else refused w schema_mismatch
]
