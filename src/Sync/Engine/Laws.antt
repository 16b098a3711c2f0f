-- ===== src/Sync/Engine/Laws.antt =====
-- Every state that the service reaches is well formed.
use db_backup.Sync.Engine.Jobs.{run_sync_job-WellFormed}
use db_backup.Prelude.{
  String, ◌≡◌, refl, inl, inr, false, not, Option, none, some, arith, ◌==◌, eq_iff, Option-cases,
  Map, get, put, get-put, get-remove,
}
use db_backup.Sync.Values.{update, delete}
use db_backup.Sync.Engine.{Connection, SyncConfig, World, Services}
use db_backup.Sync.Engine.Configs.{
  CreateSyncConfigDto, new_row, create_between, create_sync_configuration, UpdateSyncConfigDto,
  updated_row, update_sync_configuration, delete_sync_configuration,
}
use db_backup.Sync.Engine.Reach.{
  nothing_yet, Step, Reachable, is_active_config, is_active_realtime, WellFormed, create, update,
  delete, activate, pause, resume, stop, trigger, ticking, restarting, capture, work, start, next,
  run_job,
}
use db_backup.Sync.Engine.Keeping.{
  After, After-done, After-refused, Anything, WellFormed-world_of, WellFormed-SameView,
}
use db_backup.Sync.Engine.Preserved.{calm_unless, if-After}
use db_backup.Sync.Engine.Kept.{stop_sync_configuration-After}
use db_backup.Sync.Engine.Activated.{activate_sync_configuration-After}
use db_backup.Sync.Engine.Paused.{pause_sync_configuration-After, resume_sync_configuration-After}
use db_backup.Sync.Engine.Timed.{trigger_sync-After, tick-WellFormed, restart-WellFormed}

put_inactive-WellFormed :
    (id : String) (c : SyncConfig) (w : World)
    → WellFormed w
    → c.is_active ≡ false
    → is_active_config (get w.configs id) ≡ false
    → WellFormed (record w { configs = put w.configs id c })
put_inactive-WellFormed id c w wf off before =
    let calm =
      calm_unless id w wf (ground (arith, before, is_active_realtime_lem (get w.configs id))) in
    record {
      registered = wf.registered;
      working = λ t j on.
          ground (arith, wf.working t j on, get-put w.configs id j c, calm, on, eq_iff id j);
      rows = λ j. ground (arith, wf.rows j, get-put w.configs id j c, off, before, eq_iff id j);
    }
  where
    is_active_realtime_lem :
        (o : Option SyncConfig) → is_active_config o ≡ false → is_active_realtime o ≡ false
    is_active_realtime_lem none h = refl
    is_active_realtime_lem (some d) h = ground (arith, h)

create_sync_configuration-After :
    (services : Services) (dto : CreateSyncConfigDto) (w : World)
    → get w.configs (services.new_config w.configs) ≡ none
    → WellFormed w
    → After Anything (create_sync_configuration services dto w)
unfolding create_sync_configuration create_between new_row
create_sync_configuration-After services dto w fresh wf =
    elim (Option-cases (get w.connections dto.source_connection_id)) [
      | inl gone ↦ rw (gone, create_sync_configuration) (After-refused _ _ _ _ wf)
      | inr (s, found) ↦
          rw (found, create_sync_configuration)
            (if-After Anything (not (s.user_id == dto.user_id)) _ _ (λ e. After-refused _ _ _ _ wf)
              (λ e. elim (Option-cases (get w.connections dto.target_connection_id)) [
                | inl gone ↦ rw gone (After-refused _ _ _ _ wf)
                | inr (t, there) ↦ rw there (
                    if-After Anything (not (t.user_id == dto.user_id)) _ _
                      (λ e. After-refused _ _ _ _ wf)
                      (λ e.
                        if-After Anything (dto.source_connection_id == dto.target_connection_id) _ _
                          (λ e. After-refused _ _ _ _ wf)
                          (λ e.
                            if-After Anything (not (services.accessible s)) _ _
                              (λ e. After-refused _ _ _ _ wf)
                              (λ e.
                                if-After Anything (not (services.accessible t)) _ _
                                  (λ e. After-refused _ _ _ _ wf)
                                  (λ e.
                                    After-done _ _ _
                                      (put_inactive-WellFormed (services.new_config w.configs)
                                        (new_row dto s t) w wf refl (ground (arith, fresh)))
                                      tt)))))
              ]))
    ]

update_sync_configuration-After :
    (id : String) (dto : UpdateSyncConfigDto) (w : World)
    → WellFormed w
    → After Anything (update_sync_configuration id dto w)
unfolding update_sync_configuration updated_row
update_sync_configuration-After id dto w wf = elim (Option-cases (get w.configs id)) [
  | inl gone ↦ rw (gone, update_sync_configuration) (After-refused _ _ _ _ wf)
  | inr (c, found) ↦
      rw (found, update_sync_configuration)
        (if-After Anything c.is_active _ _ (λ on. After-refused _ _ _ _ wf)
          (λ off.
            After-done _ _ _
              (put_inactive-WellFormed id (updated_row dto c) w wf off (ground (arith, found, off)))
              tt))
]

delete_sync_configuration-After :
    (id : String) (w : World) → WellFormed w → After Anything (delete_sync_configuration id w)
unfolding delete_sync_configuration
delete_sync_configuration-After id w wf = elim (Option-cases (get w.configs id)) [
  | inl gone ↦ rw (gone, delete_sync_configuration) (After-refused _ _ _ _ wf)
  | inr (c, found) ↦
      rw (found, delete_sync_configuration)
        (if-After Anything c.is_active _ _ (λ on. After-refused _ _ _ _ wf)
          (λ off.
            let calm = calm_unless id w wf (ground (arith, found, off)) in
            After-done _ _ _
              (record {
                registered = wf.registered;
                working = λ t j on. ground (
                  arith,
                  wf.working t j on,
                  get-remove w.configs id j,
                  get-remove w.states id j,
                  calm,
                  on,
                  eq_iff id j,
                );
                rows = λ j. ground (
                  arith,
                  wf.rows j,
                  get-remove w.configs id j,
                  get-remove w.states id j,
                  eq_iff id j,
                );
              })
              tt))
]

nothing_yet-WellFormed : (connections : Map Connection) → WellFormed (nothing_yet connections)
unfolding get
nothing_yet-WellFormed connections = record {
  registered = λ t id h. cc;
  working = λ t id h. cc;
  rows = λ id. refl;
}

module _ (services : Services) where
  Step-WellFormed : (w v : World) → Step services w v → WellFormed w → WellFormed v
  Step-WellFormed _ _ (create dto w fresh) wf =
      WellFormed-world_of Anything _ (create_sync_configuration-After services dto w fresh wf)
  Step-WellFormed _ _ (update id dto w) wf =
      WellFormed-world_of Anything _ (update_sync_configuration-After id dto w wf)
  Step-WellFormed _ _ (delete id w) wf =
      WellFormed-world_of Anything _ (delete_sync_configuration-After id w wf)
  Step-WellFormed _ _ (activate id initial w) wf =
      WellFormed-world_of Anything _ (activate_sync_configuration-After services id initial w wf)
  Step-WellFormed _ _ (pause id w) wf =
      WellFormed-world_of Anything _ (pause_sync_configuration-After services id w wf)
  Step-WellFormed _ _ (resume id w) wf =
      WellFormed-world_of Anything _ (resume_sync_configuration-After services id w wf)
  Step-WellFormed _ _ (stop id w) wf =
      WellFormed-world_of Anything _ (stop_sync_configuration-After services id w wf)
  Step-WellFormed _ _ (trigger id force w) wf =
      WellFormed-world_of Anything _ (trigger_sync-After services id force w wf)
  Step-WellFormed _ _ (ticking t id w) wf = tick-WellFormed services t id w wf
  Step-WellFormed _ _ (restarting ids w distinct) wf = restart-WellFormed ids w distinct wf
  Step-WellFormed _ _ (run_job expired run id name began now history w) wf =
      run_sync_job-WellFormed expired run id name began now
        (record { world = w; history = history }) wf
  Step-WellFormed _ _ (capture logs w) wf = WellFormed-SameView w _ wf (refl, refl, refl, refl)
  Step-WellFormed _ _ (work jobs w) wf = WellFormed-SameView w _ wf (refl, refl, refl, refl)

  -- In every state that operations, ticks, restarts, jobs of the worker, captured changes and the
  -- work of the queue lead to from no configurations: every running timer is the
  -- registered one of its configuration, a configuration with a registered timer is active, polls
  -- and is not paused, and exactly the active configurations have a row of their state.
  pub Reachable-WellFormed : (w : World) → Reachable services w → WellFormed w
  Reachable-WellFormed _ (start connections) = nothing_yet-WellFormed connections
  Reachable-WellFormed _ (next w v before step) =
      Step-WellFormed w v step (Reachable-WellFormed w before)
