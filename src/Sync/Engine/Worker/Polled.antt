-- ===== src/Sync/Engine/Worker/Polled.antt =====
-- The polls of setupRealtimeMode after a job of the worker.
use db_backup.Prelude.{
  ℕ, String, ◌≡◌, refl, inl, inr, Option-cases, Bool, true, false, ◌&&◌, none, some, List, [], ◌∷◌,
  All, arith, eq_iff, get, get-put,
}
use db_backup.Sync.Values.{ChangeLog}
use db_backup.Sync.Engine.{SyncConfig, SyncState, World, Services, given, active, waiting, world_of}
use db_backup.Sync.Engine.Trigger.{claim, enqueue, trigger_sync}
use db_backup.Sync.Engine.Ticking.{is_realtime, has_changes, tick}
use db_backup.Sync.Engine.Cycle.{running, triggered, enqueue_done, enqueue_down}
use db_backup.Sync.Engine.Worker.{
  Ran, succeeded, threw, unpublished, Worked, row_put, started_row, finish, run_sync_job,
}
use db_backup.Sync.Engine.Worker.Results.{run_sync_job-Ended}

-- one poll after the other, each with what queue and databases answer then
abbrev pub polls : List Services → ℕ → String → World → World
polls [] t id w = w
polls (services ∷ rest) t id w = polls rest t id (tick services t id w)

-- a configuration that polls, has changes to copy and notes no job
abbrev IsDue : String → SyncConfig → SyncState → World → Type 0
IsDue id c s w =
    (get w.configs id ≡ some c)
    × ((c.is_active && is_realtime c) ≡ true)
    × (get w.states id ≡ some s)
    × (given s.current_job_id ≡ none)
    × (has_changes id w.logs ≡ true)

module _ (t : ℕ) (id : String) (c : SyncConfig) (s : SyncState) (w : World) where
  tick-due :
      (services : Services)
      → IsDue id c s w
      → tick services t id w ≡ world_of (enqueue services id false w)
  unfolding tick trigger_sync claim
  tick-due services (found, polls_on, state, idle, due) =
      let on : c.is_active ≡ true = ground arith in
      rw (found, tick, polls_on, state, idle, due, trigger_sync, found, on, state, claim, idle) refl

  tick-down :
      (services : Services)
      → IsDue id c s w
      → services.add_job w.jobs ≡ none
      → tick services t id w ≡ w
  tick-down services is_due down =
      rw (tick-due services is_due, enqueue_down services id false w down) refl

  tick-up :
      (services : Services) (job : String)
      → IsDue id c s w
      → services.add_job w.jobs ≡ some job
      → tick services t id w ≡ triggered id false s w job
  tick-up services job is_due up =
      rw (tick-due services is_due, enqueue_done services id job false s w is_due.2 up) refl

  polls-down :
      (downs : List Services)
      → IsDue id c s w
      → All (λ services. services.add_job w.jobs ≡ none) downs
      → polls downs t id w ≡ w
  polls-down [] is_due down = refl
  polls-down (services ∷ rest) is_due (first, down) =
      rw (tick-down services is_due first) (polls-down rest is_due down)

finish-configs :
    (expired : ChangeLog → Bool) (id : String) (start now : ℕ) (ran : Ran) (r : SyncState)
    (u : Worked)
    → (finish expired id start now ran r u).world.configs ≡ u.world.configs
unfolding finish
finish-configs expired id start now (succeeded totals from back) r u = refl
finish-configs expired id start now (threw message lost from back) r u = refl
finish-configs expired id start now (unpublished totals message lost from back) r u = refl

run_sync_job-configs :
    (expired : ChangeLog → Bool) (run : World → Ran) (id job : String) (start now : ℕ) (v : Worked)
    → (run_sync_job expired run id job start now v).0.world.configs ≡ v.world.configs
unfolding run_sync_job
run_sync_job-configs expired run id job start now v = elim (Option-cases (get v.world.configs id)) [
  | inl gone ↦ rw (gone, run_sync_job) refl
  | inr (c, found) ↦ elim (Option-cases (get v.world.states id)) [
    | inl gone ↦ rw (found, gone, run_sync_job) refl
    | inr (s, state) ↦
        rw (found, state, run_sync_job)
          (finish-configs expired id start now (run (row_put id (started_row job s) v.world))
            (started_row job s) (record v { world = row_put id (started_row job s) v.world }))
  ]
]

-- `job` waits for the configuration and is noted in its row, which is active
abbrev pub Queued : String → String → World → Type 0
Queued id job w =
    (get w.jobs job ≡ some (record { config_id = id; full = false; state = waiting }))
    × ((s : SyncState) × (get w.states id ≡ some s)
        × (s.current_job_id ≡ some job)
        × (s.status ≡ active))

-- the state that a job leaves, with the changes that are captured by then
abbrev pub left_by :
    (ChangeLog → Bool) → (World → Ran) → String → String → ℕ → ℕ → Worked → List ChangeLog → World
left_by expired run id job start now v logs =
    record (run_sync_job expired run id job start now v).0.world { logs = logs }

-- After a job of an active configuration in realtime mode, whether its run succeeded or threw, and
-- with whatever changes are captured by then, if one is not synchronized: the polls change nothing
-- while the queue refuses jobs, and the first one for which the queue answers an id has queued under
-- it a new waiting job of the configuration, and has noted it in the row, which is active.
pub polls-after_job :
    (expired : ChangeLog → Bool) (run : World → Ran) (id job second : String) (start now t : ℕ)
    (v : Worked) (c : SyncConfig) (s : SyncState) (logs : List ChangeLog) (downs : List Services)
    (up : Services)
    → get v.world.configs id ≡ some c
    → (c.is_active && is_realtime c) ≡ true
    → get v.world.states id ≡ some s
    → has_changes id logs ≡ true
    → All
        (λ services. services.add_job (left_by expired run id job start now v logs).jobs ≡ none)
        downs
    → up.add_job (left_by expired run id job start now v logs).jobs ≡ some second
    → (polls downs t id (left_by expired run id job start now v logs)
        ≡ left_by expired run id job start now v logs)
      × Queued id second
          (tick up t id (polls downs t id (left_by expired run id job start now v logs)))
unfolding given
polls-after_job expired run id job second start now t v c s logs downs up found polls_on state due
      refusing accepts =
    let ended = run_sync_job-Ended expired run id job start now v c s found state in
    let w = left_by expired run id job start now v logs in
    let configs = run_sync_job-configs expired run id job start now v in
    let is_due : IsDue id c ended.0 w =
      (rw (configs) found, polls_on, ended.1, rw (ended.2) refl, due) in
    let calm = polls-down t id c ended.0 w downs is_due refusing in
    let queues = tick-up t id c ended.0 w up second is_due accepts in
    (
      calm,
      rw (calm, queues)
          (
            ground (
              arith,
              get-put w.jobs second second
                  (record { config_id = id; full = false; state = waiting }),
              eq_iff second second,
            ),
            (
              running second ended.0,
              ground (arith, get-put w.states id id (running second ended.0), eq_iff id id),
              refl,
              refl,
            ),
          ),
    )
