-- ===== src/Sync/Engine/Activated.antt =====
-- Activating a configuration keeps the state well formed.
use db_backup.Prelude.{
  String, refl, inl, inr, Bool, true, false, arith, if◌then◌else◌, Option-cases, get,
}
use db_backup.Sync.Values.{source, target}
use db_backup.Sync.Engine.{
  SyncConfig, World, Services, Outcome, ◌and_then◌, initial_sync_error, done, refused,
}
use db_backup.Sync.Engine.Modes.{both_ways, initialize_tracking, add_sync_job, start_mode}
use db_backup.Sync.Engine.Activation.{
  stop_sync_configuration, initial_sync, activate_sync_configuration,
}
use db_backup.Sync.Engine.Reach.{WellFormed}
use db_backup.Sync.Engine.Keeping.{
  After, After-done, After-refused, Anything, After-and_then, SameView, add_sync_job-After,
}
use db_backup.Sync.Engine.Preserved.{
  After-mono, calm_unless, if-After, initialize_tracking-After, SameView-trans,
}
use db_backup.Sync.Engine.Kept.{stop_sync_configuration-After}
use db_backup.Sync.Engine.Started.{Ready, switched_on, start_mode-After, switch_on-After}

initial_sync-After :
    (services : Services) (id : String) (c : SyncConfig) (initial : Bool) (w : World)
    → WellFormed w
    → Ready id c w
    → After (Ready id c) (initial_sync services id initial w)
unfolding initial_sync After
initial_sync-After services id c false w wf ready = (wf, ready)
initial_sync-After services id c true w wf ready =
    go (add_sync_job services id true w) (add_sync_job-After services id true w wf)
  where
    go :
        (o : Outcome String)
        → After (SameView w) o
        → After (Ready id c) (elim o [
          | done v job ↦ done v tt
          | refused v r ↦
              stop_sync_configuration services id v and_then λ u _. refused u initial_sync_error
        ])
    go (done v job) (kept, same) = (
      kept,
      (ground (arith, ready, same), ground (arith, ready, same), ground (arith, ready, same)),
    )
    go (refused v r) kept =
        After-and_then Anything (Ready id c) (stop_sync_configuration services id v)
          (λ u a. refused u initial_sync_error) (stop_sync_configuration-After services id v kept)
          (λ u a k q. After-refused Unit (Ready id c) u initial_sync_error k)

pub activate_sync_configuration-After :
    (services : Services) (id : String) (initial : Bool) (w : World)
    → WellFormed w
    → After Anything (activate_sync_configuration services id initial w)
unfolding activate_sync_configuration start_mode
activate_sync_configuration-After services id initial w wf =
    elim (Option-cases (get w.configs id)) [
      | inl gone ↦ rw (gone, activate_sync_configuration) (After-refused _ _ _ _ wf)
      | inr (c, found) ↦
          rw (found, activate_sync_configuration)
            (if-After Anything c.is_active _ _ (λ on. After-refused _ _ _ _ wf)
              (λ off.
                if-After Anything (services.schemas_agree c) _ _
                  (λ agree.
                    After-and_then (Ready id (switched_on c)) Anything _ _
                      (After-and_then (Ready id (switched_on c)) (Ready id (switched_on c)) _ _
                        (After-and_then (SameView w) (Ready id (switched_on c)) _ _
                          (After-and_then (SameView w) (SameView w) _ _
                            (initialize_tracking-After services source id c w wf)
                            (λ v a kept same. both c v kept same (both_ways c)))
                          (λ v a kept same.
                            switch_on-After services id c v kept
                              (ground
                                (arith, same, calm_unless id w wf (ground (arith, found, off))))
                              (ground (arith, same, found))))
                        (λ v a kept ready.
                          initial_sync-After services id (switched_on c) initial v kept ready))
                      (λ v a kept ready.
                        start_mode-After services id (switched_on c) v kept refl ready))
                  (λ differ. After-refused _ _ _ _ wf)))
    ]
  where
    both :
        (c : SyncConfig) (v : World)
        → WellFormed v
        → SameView w v
        → (b : Bool)
        → After (SameView w) (if b then initialize_tracking services target id c v else done v tt)
    both c v kept same true =
        After-mono (SameView v) (SameView w) _ (λ u. SameView-trans w v u same)
          (initialize_tracking-After services target id c v kept)
    both c v kept same false = After-done _ _ _ kept same
