-- ===== src/Tests/Worker.antt =====
-- A job that fails and one that succeeds, and a trigger after the first.
use db_backup.Prelude.{
  String, ◌≡◌, refl, Bool, false, none, some, [], ◌∷◌, ◌==◌, if◌then◌else◌, get,
}
use db_backup.Sync.Values.{ChangeLog, update, source}
use db_backup.Sync.Engine.{SyncState, World, Services}
use db_backup.Sync.Engine.Worker.{Ran, Worked, run_sync_job, threw}
use db_backup.Sync.Engine.Worker.Results.{Ended, run_sync_job-Ended}
use db_backup.Sync.Engine.Ticking.{has_changes, tick}
use db_backup.Sync.Engine.Worker.Polled.{polls, left_by, Queued, polls-after_job}
use db_backup.Tests.Engine.{services, polled, sleeping, asleep}

abbrev idle : Worked
idle = record { world = asleep; history = [] }

abbrev breaks : World → Ran
breaks w = threw "lost connection" none (some "0") none

abbrev keep_all : ChangeLog → Bool
keep_all log = false

run_sync_job-Ended_example :
    (s' : SyncState) × (get (run_sync_job keep_all breaks "c" "1" 10 20 idle).0.world.states "c"
      ≡ some s')
    × (s'.current_job_id ≡ none)
    × Ended sleeping s' []
        (run_sync_job keep_all breaks "c" "1" 10 20 idle).0.history
        (threw "lost connection" none (some "0") none)
        (run_sync_job keep_all breaks "c" "1" 10 20 idle).1
    × ((j : String)
        → get (run_sync_job keep_all breaks "c" "1" 10 20 idle).0.world.states j
          ≡ (if "c" == j then some s' else get asleep.states j))
unfolding get
run_sync_job-Ended_example =
    run_sync_job-Ended keep_all breaks "c" "1" 10 20 idle polled sleeping refl refl

abbrev edited : ChangeLog
edited = record {
  id = "7";
  sync_config_id = "c";
  table_name = "users";
  operation = update;
  primary_key_values = [];
  change_data = none;
  timestamp = 15;
  checkpoint = "7";
  origin = source;
  synchronized = false;
}

-- the queue cannot be reached
abbrev offline : Services
offline = record services { add_job = λ jobs. none }

abbrev left_over : World
left_over = left_by keep_all breaks "c" "1" 10 20 idle (edited ∷ [])

polls-after_job_example :
    (polls (offline ∷ offline ∷ []) 0 "c" left_over ≡ left_over)
    × Queued "c" "job" (tick services 0 "c" (polls (offline ∷ offline ∷ []) 0 "c" left_over))
unfolding get has_changes
polls-after_job_example =
    polls-after_job keep_all breaks "c" "1" "job" 10 20 0 idle polled sleeping (edited ∷ [])
      (offline ∷ offline ∷ []) services refl refl refl refl (refl, (refl, tt)) refl
