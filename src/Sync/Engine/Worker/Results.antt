-- ===== src/Sync/Engine/Worker/Results.antt =====
-- What a job leaves in the row, the history and the other configurations.
use db_backup.Prelude.{
  ℕ, ◌+◌, String, ◌≡◌, refl, ◌≢◌, Bool, true, Option, none, some, arith, ◌==◌, eq_iff,
  if◌then◌else◌, get, get-put, List, ◌∷◌, or_else, false,
}
use db_backup.Sync.Values.{ChangeLog}
use db_backup.Sync.Engine.{
  SyncConfig, SyncState, World, Services, given, active, failed, waiting, completed, done,
}
use db_backup.Sync.Engine.Trigger.{claim, trigger_sync}
use db_backup.Sync.Engine.Cycle.{triggered, enqueue_done}
use db_backup.Sync.Engine.Worker.{
  Ran, Worked, started_row, checkpoints_row, completed_row, failed_row, row_put, finish, JobResult,
  result_of, run_sync_job, succeeded, threw, unpublished, completed, rethrown, SyncHistory,
  totals_row,
}

-- the row after a run that failed, with its error, and the entry of the run
abbrev Failing : SyncState → ℕ → String → Option String → JobResult → SyncHistory → Type 0
Failing s' failures message lost r h =
    (r ≡ rethrown (or_else lost message))
    × (s'.status ≡ failed)
    × (s'.consecutive_failures ≡ failures)
    × (s'.last_error ≡ some message)
    × (h.completed ≡ false)
    × (h.error ≡ some message)

-- how the row and the history of a finished job stand to those before, by how its run ended
abbrev pub Ended :
    SyncState → SyncState → List SyncHistory → List SyncHistory → Ran → JobResult → Type 0
Ended s s' past history (succeeded totals from back) r =
    (r ≡ completed)
    × (s'.status ≡ active)
    × (s'.consecutive_failures ≡ 0)
    × (s'.last_error ≡ none)
    × ((h : SyncHistory) × (h.completed ≡ true) × (h.totals ≡ totals) × (history ≡ h ∷ past))
Ended s s' past history (threw message lost from back) r =
    (h : SyncHistory) × Failing s' (s.consecutive_failures + 1) message lost r h
    × (history ≡ h ∷ past)
Ended s s' past history (unpublished totals message lost from back) r =
    (h k : SyncHistory) × Failing s' 1 message lost r h
    × (k.completed ≡ true)
    × (k.totals ≡ totals)
    × (history ≡ h ∷ k ∷ past)

module _ (expired : ChangeLog → Bool) (run : World → Ran) (id job : String) (start now : ℕ) where
  finish-Ended :
      (ran : Ran) (s : SyncState) (v : Worked)
      → (s' : SyncState) × (get (finish expired id start now ran s v).world.states id ≡ some s')
        × (s'.current_job_id ≡ none)
        × Ended s s' v.history (finish expired id start now ran s v).history ran (result_of ran)
        × ((j : String)
            → get (finish expired id start now ran s v).world.states j
              ≡ (if id == j then some s' else get v.world.states j))
  unfolding finish totals_row completed_row failed_row checkpoints_row
  finish-Ended (succeeded totals from back) s v =
      let row = totals_row id start now totals from back s v in
      (
        row,
        ground (arith, get-put v.world.states id id row, eq_iff id id),
        refl,
        (refl, refl, refl, refl, (_, refl, refl, refl)),
        (λ j. get-put v.world.states id j row),
      )
  finish-Ended (threw message lost from back) s v =
      let row = failed_row message now (checkpoints_row from back s) in
      (
        row,
        ground (arith, get-put v.world.states id id row, eq_iff id id),
        refl,
        (_, (refl, refl, refl, refl, refl, refl), refl),
        (λ j. get-put v.world.states id j row),
      )
  finish-Ended (unpublished totals message lost from back) s v =
      let row = failed_row message now (totals_row id start now totals from back s v) in
      (
        row,
        ground (arith, get-put v.world.states id id row, eq_iff id id),
        refl,
        (_, _, (refl, refl, refl, refl, refl, refl), refl, refl, refl),
        (λ j. get-put v.world.states id j row),
      )

  -- A job of a configuration with a row ends with no current job noted in it, and the rows of the
  -- other configurations stay. If the run and the message of its completion succeeded, the row is
  -- active, without failures and error, and the history has one more completed run with its totals.
  -- If the run failed, the row is failed, holds the error and counts one more failure, and the history
  -- has one more failed run. If only the message failed, the row is failed as well, with one failure,
  -- and the history has both a completed and a failed run. A job that failed throws this error on, or
  -- the one of publishing the failure.
  pub run_sync_job-Ended :
      (v : Worked) (c : SyncConfig) (s : SyncState)
      → get v.world.configs id ≡ some c
      → get v.world.states id ≡ some s
      → (s' : SyncState) × (get (run_sync_job expired run id job start now v).0.world.states id
          ≡ some s')
        × (s'.current_job_id ≡ none)
        × Ended s s' v.history
            (run_sync_job expired run id job start now v).0.history
            (run (row_put id (started_row job s) v.world))
            (run_sync_job expired run id job start now v).1
        × ((j : String)
            → get (run_sync_job expired run id job start now v).0.world.states j
              ≡ (if id == j then some s' else get v.world.states j))
  unfolding run_sync_job started_row
  run_sync_job-Ended v c s found state =
      let w = row_put id (started_row job s) v.world in
      let (s', row, free, ended, others) =
        finish-Ended (run w) (started_row job s) (record v { world = w }) in
      rw (found, state, run_sync_job)
        (
          s',
          row,
          free,
          carried (run w) s' _ _ ended,
          (λ j. ground (arith, others j, get-put v.world.states id j (started_row job s))),
        )
    where
      carried :
          (ran : Ran) (s' : SyncState) (history : List SyncHistory) (r : JobResult)
          → Ended (started_row job s) s' v.history history ran r
          → Ended s s' v.history history ran r
      carried (succeeded totals from back) s' history r h = h
      carried (threw message lost from back) s' history r h = h
      carried (unpublished totals message lost from back) s' history r h = h

-- After a job whose run failed, a trigger is accepted whatever the queue holds for that job, which it
-- tries again: a second job of the configuration is queued, and the first one is still there.
pub trigger_sync-retried :
    (services : Services) (expired : ChangeLog → Bool) (id job second : String) (start now : ℕ)
    (message : String) (lost from back : Option String) (force : Bool) (v : Worked) (c : SyncConfig)
    (s : SyncState)
    → get v.world.configs id ≡ some c
    → c.is_active ≡ true
    → services.add_job v.world.jobs ≡ some second
    → second ≢ job
    → (u : World) × (trigger_sync services id force
          (finish expired id start now (threw message lost from back) s v).world
        ≡ done u second)
      × (get u.jobs job ≡ get v.world.jobs job)
      × (get u.jobs second ≡ some (record { config_id = id; full = force; state = waiting }))
unfolding trigger_sync finish failed_row checkpoints_row claim given
trigger_sync-retried services expired id job second start now message lost from back force v c s
      found on up ne =
    let w = (finish expired id start now (threw message lost from back) s v).world in
    let row = failed_row message now (checkpoints_row from back s) in
    let state : get w.states id ≡ some row =
      ground (arith, get-put v.world.states id id row, eq_iff id id) in
    (
      triggered id force row w second,
      rw (found, trigger_sync, on, state) (enqueue_done services id second force row w state up),
      ground (
        arith,
        get-put v.world.jobs second job (record { config_id = id; full = force; state = waiting }),
        eq_iff second job,
      ),
      ground (
        arith,
        get-put v.world.jobs second second
            (record { config_id = id; full = force; state = waiting }),
        eq_iff second second,
      ),
    )
