-- ===== src/Sync/Engine/Jobs.antt =====
-- The job of the worker keeps the state well formed.
use db_backup.Prelude.{
  ℕ, String, ◌≡◌, refl, inl, inr, Bool, false, some, arith, eq_iff, Option-cases, get, get-put,
}
use db_backup.Sync.Values.{ChangeLog}
use db_backup.Sync.Engine.{SyncState, World}
use db_backup.Sync.Engine.Activation.{is_paused}
use db_backup.Sync.Engine.Worker.{
  Ran, Worked, started_row, completed_row, failed_row, row_put, finish, run_sync_job, succeeded,
  threw, unpublished, totals_row,
}
use db_backup.Sync.Engine.Reach.{WellFormed}
use db_backup.Sync.Engine.Keeping.{WellFormed-SameView}

put_row-WellFormed :
    (id : String) (old s : SyncState) (w : World)
    → WellFormed w
    → get w.states id ≡ some old
    → is_paused s ≡ false
    → WellFormed (row_put id s w)
put_row-WellFormed id old s w wf found awake = record {
  registered = wf.registered;
  working =
      λ t j on. ground (arith, wf.working t j on, get-put w.states id j s, awake, eq_iff id j);
  rows = λ j. ground (arith, wf.rows j, get-put w.states id j s, found, eq_iff id j);
}

finish-WellFormed :
    (expired : ChangeLog → Bool) (id : String) (began now : ℕ) (ran : Ran) (s : SyncState)
    (v : Worked)
    → WellFormed v.world
    → get v.world.states id ≡ some s
    → WellFormed (finish expired id began now ran s v).world
unfolding finish totals_row completed_row failed_row
finish-WellFormed expired id began now (succeeded totals from back) s v wf found =
    WellFormed-SameView _ _ (put_row-WellFormed id s _ v.world wf found refl)
      (refl, refl, refl, refl)
finish-WellFormed expired id began now (threw message lost from back) s v wf found =
    put_row-WellFormed id s _ v.world wf found refl
finish-WellFormed expired id began now (unpublished totals message lost from back) s v wf found =
    put_row-WellFormed id s _ v.world wf found refl

pub run_sync_job-WellFormed :
    (expired : ChangeLog → Bool) (run : World → Ran) (id name : String) (began now : ℕ) (v : Worked)
    → WellFormed v.world
    → WellFormed (run_sync_job expired run id name began now v).0.world
unfolding run_sync_job started_row
run_sync_job-WellFormed expired run id name began now v wf =
    elim (Option-cases (get v.world.configs id)) [
      | inl gone ↦ rw (gone, run_sync_job) wf
      | inr (c, found) ↦ elim (Option-cases (get v.world.states id)) [
        | inl gone ↦ rw (found, gone, run_sync_job) wf
        | inr (s, state) ↦
            let w = row_put id (started_row name s) v.world in
            rw (found, state, run_sync_job)
              (finish-WellFormed expired id began now (run w) (started_row name s)
                (record v { world = w })
                (put_row-WellFormed id s (started_row name s) v.world wf state refl)
                (ground (arith, get-put v.world.states id id (started_row name s), eq_iff id id)))
      ]
    ]
