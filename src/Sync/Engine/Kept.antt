-- ===== src/Sync/Engine/Kept.antt =====
-- Stopping a configuration keeps the state well formed.
use db_backup.Prelude.{
  String, ◌≡◌, refl, inl, inr, Bool, true, false, none, some, arith, eq_iff, if◌then◌else◌,
  Option-cases, get, put, remove, get-put, get-remove,
}
use db_backup.Sync.Values.{source, target}
use db_backup.Sync.Engine.{SyncConfig, World, Services, set_active, done}
use db_backup.Sync.Engine.Modes.{both_ways, teardown_tracking, cancel_running_job}
use db_backup.Sync.Engine.Activation.{job_of, shut_down, stop_sync_configuration}
use db_backup.Sync.Engine.Reach.{WellFormed}
use db_backup.Sync.Engine.Keeping.{
  After, After-done, After-refused, Anything, After-and_then, SameView, WellFormed-SameView,
  cancel_running_job-SameView,
}
use db_backup.Sync.Engine.Preserved.{
  After-mono, Cancelled, cancel_mode-After, if-After, teardown_tracking-After, SameView-trans,
}

-- the end of a stop: no row, not active, while no timer is registered
deactivated-WellFormed :
    (id : String) (c : SyncConfig) (w : World)
    → WellFormed w
    → get w.intervals id ≡ none
    → WellFormed (record w {
      states = remove w.states id;
      configs = put w.configs id (record c { is_active = false });
    })
deactivated-WellFormed id c w wf calm = record {
  registered = wf.registered;
  working = λ t j h. ground (
    arith,
    wf.working t j h,
    get-remove w.states id j,
    get-put w.configs id j (record c { is_active = false }),
    calm,
    h,
    eq_iff id j,
  );
  rows = λ j. ground (
    arith,
    wf.rows j,
    get-remove w.states id j,
    get-put w.configs id j (record c { is_active = false }),
    eq_iff id j,
  );
}

pub set_active_done :
    (id : String) (on : Bool) (c : SyncConfig) (w : World)
    → get w.configs id ≡ some c
    → set_active id on w
      ≡ done (record w { configs = put w.configs id (record c { is_active = on }) }) tt
unfolding set_active
set_active_done id on c w found = rw (found, set_active) refl

module _ (services : Services) where
  shut_down-After :
      (id : String) (c : SyncConfig) (w : World)
      → WellFormed w
      → get w.configs id ≡ some c
      → get w.intervals id ≡ none
      → After Anything (shut_down services id c w)
  unfolding shut_down
  shut_down-After id c w wf found calm =
      After-and_then (SameView w) Anything _ _
        (After-and_then (SameView w) (SameView w) _ _
          (teardown_tracking-After services source id c w wf)
          (λ v a kept same. both v kept same (both_ways c)))
        (λ v a kept same.
          rw
            (set_active_done id false c (record v { states = remove v.states id })
              (ground (arith, same, found)))
            (After-done _ _ _ (deactivated-WellFormed id c v kept (ground (arith, same, calm))) tt))
    where
      both :
          (v : World)
          → WellFormed v
          → SameView w v
          → (b : Bool)
          → After (SameView w) (if b then teardown_tracking services target id c v else done v tt)
      both v kept same true =
          After-mono (SameView v) (SameView w) _ (λ u. SameView-trans w v u same)
            (teardown_tracking-After services target id c v kept)
      both v kept same false = After-done _ _ _ kept same

  pub stop_sync_configuration-After :
      (id : String) (w : World)
      → WellFormed w
      → After Anything (stop_sync_configuration services id w)
  unfolding stop_sync_configuration
  stop_sync_configuration-After id w wf = elim (Option-cases (get w.configs id)) [
    | inl gone ↦ rw (gone, stop_sync_configuration) (After-refused _ _ _ _ wf)
    | inr (c, found) ↦
        let v = cancel_running_job services (job_of (get w.states id)) w in
        let same = cancel_running_job-SameView services (job_of (get w.states id)) w in
        rw (found, stop_sync_configuration)
          (if-After Anything c.is_active _ _
            (λ on.
              After-and_then (Cancelled id v) Anything _ _
                (cancel_mode-After id c v (WellFormed-SameView w v wf same)
                  (ground (arith, same, found)))
                (λ u a kept cancelled.
                  shut_down-After id c u kept (ground (arith, cancelled.0, same, found))
                    cancelled.1))
            (λ off. After-refused _ _ _ _ wf))
  ]
