-- ===== src/Tests/Engine.antt =====
-- A polling configuration, paused, and what a trigger does to it.
use db_backup.Prelude.{ℕ, ◌≡◌, refl, true, false, none, some, [], ◌∷◌, arith, Map, get}
use db_backup.Sync.Conflicts.{source_wins}
use db_backup.Sync.Engine.{
  Connection, SyncConfig, SyncState, World, Services, world_of, given, mysql, postgresql,
  unidirectional, realtime, active, paused, not_paused, done, refused,
}
use db_backup.Sync.Engine.Configs.{CreateSyncConfigDto, create_sync_configuration}
use db_backup.Sync.Engine.Trigger.{trigger_sync}
use db_backup.Sync.Engine.Activation.{resume_sync_configuration, activate_sync_configuration}
use db_backup.Sync.Engine.Reach.{
  nothing_yet, Reachable, has_timer, WellFormed, create, activate, start, next,
}
use db_backup.Sync.Engine.Laws.{Reachable-WellFormed}
use db_backup.Sync.Engine.Cycle.{trigger_sync-paused, Single, trigger_sync-Single}

abbrev pub services : Services
services = record {
  new_config = λ configs. "c";
  accessible = λ c. true;
  schemas_agree = λ c. true;
  initializes = λ c side. true;
  tears_down = λ c side. true;
  checkpoint = λ c side. some "0";
  add_job = λ jobs. some "job";
  finds_job = λ job. true;
  cancels = λ job. true;
  adds_scheduler = λ cron. true;
  next_run = λ cron. some 100;
}

abbrev here : Connection
here = record { id = "here"; user_id = "ann"; kind = mysql }

abbrev there : Connection
there = record { id = "there"; user_id = "ann"; kind = postgresql }

abbrev connections : Map Connection
connections = ("here", here) ∷ ("there", there) ∷ []

abbrev wanted : CreateSyncConfigDto
wanted = record {
  user_id = "ann";
  name = "mirror";
  source_connection_id = "here";
  target_connection_id = "there";
  direction = none;
  mode = some realtime;
  conflict_strategy = some source_wins;
  include_tables = none;
  exclude_tables = none;
  cron_expression = none;
  batch_size = none;
  parallel_tables = none;
}

abbrev pub polled : SyncConfig
polled = record {
  user_id = "ann";
  name = "mirror";
  source_connection = here;
  target_connection = there;
  direction = unidirectional;
  mode = realtime;
  conflict_strategy = source_wins;
  include_tables = [];
  exclude_tables = [];
  cron_expression = none;
  batch_size = 500;
  parallel_tables = 1;
  is_active = true;
}

abbrev pub sleeping : SyncState
sleeping = record {
  status = paused;
  source_checkpoint = some "0";
  target_checkpoint = none;
  current_job_id = none;
  next_sync_at = none;
  consecutive_failures = 0;
  current_progress = 0;
  current_table = none;
  last_sync_at = none;
  total_rows_synced = 0;
  last_sync_duration = none;
  average_sync_duration = none;
  last_error = none;
  last_error_at = none;
}

abbrev pub asleep : World
asleep = record (nothing_yet connections) {
  configs = ("c", polled) ∷ [];
  states = ("c", sleeping) ∷ [];
}

asleep-WellFormed : WellFormed asleep
unfolding get
asleep-WellFormed = record {
  registered = λ t id h. cc;
  working = λ t id h. cc;
  rows = λ id. ground arith;
}

trigger_sync-paused_example :
    (v : World) × (trigger_sync services "c" false asleep ≡ done v "job")
    × (get v.states "c" ≡ some (record sleeping { current_job_id = some "job"; status = active }))
    × ((t : ℕ) → has_timer t "c" v.timers ≡ false)
    × (resume_sync_configuration services "c" v ≡ refused v not_paused)
unfolding get given
trigger_sync-paused_example =
    trigger_sync-paused services "c" "job" polled sleeping asleep asleep-WellFormed refl refl refl
      refl refl refl

trigger_sync-Single_example :
    Single services "c" true asleep (trigger_sync services "c" true asleep)
trigger_sync-Single_example = trigger_sync-Single services "c" true asleep

abbrev created : World
unfolding create_sync_configuration
created = world_of (create_sync_configuration services wanted (nothing_yet connections))

abbrev activated : World
unfolding activate_sync_configuration
activated = world_of (activate_sync_configuration services "c" true created)

reached : Reachable services activated
unfolding get create_sync_configuration created activate_sync_configuration activated
reached =
    next created activated
      (next (nothing_yet connections) created (start connections)
        (create wanted (nothing_yet connections) refl))
      (activate "c" true created)

Reachable-WellFormed_example : WellFormed activated
Reachable-WellFormed_example = Reachable-WellFormed services activated reached
