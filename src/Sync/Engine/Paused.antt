-- ===== src/Sync/Engine/Paused.antt =====
-- Pausing and resuming a configuration keep the state well formed.
use db_backup.Prelude.{
  String, ◌≡◌, refl, inl, inr, not, ◌&&◌, none, some, arith, eq_iff, Bool-cases, Option-cases, get,
  put, get-put,
}
use db_backup.Sync.Engine.{
  SyncConfig, SyncState, World, Services, update_state, realtime, active, paused, done,
}
use db_backup.Sync.Engine.Modes.{cancel_running_job, cancel_realtime_mode, cancel_mode}
use db_backup.Sync.Engine.Activation.{
  is_paused, pause_sync_configuration, resume_sync_configuration,
}
use db_backup.Sync.Engine.Reach.{is_active_realtime, WellFormed}
use db_backup.Sync.Engine.Keeping.{
  After, After-done, After-refused, Anything, After-and_then, SameView, WellFormed-SameView,
  cancel_running_job-SameView, Updated, update_state-After, cancel_realtime_mode-After,
}
use db_backup.Sync.Engine.Preserved.{After-mono, calm_unless, cancel_mode-After, if-After}
use db_backup.Sync.Engine.Started.{start_mode-After}

cancel_realtime_mode-parts :
    (id : String) (w u : World)
    → u.timers ≡ w.timers
    → u.intervals ≡ w.intervals
    → ((cancel_realtime_mode id u).timers ≡ (cancel_realtime_mode id w).timers)
      × ((cancel_realtime_mode id u).intervals ≡ (cancel_realtime_mode id w).intervals)
      × ((cancel_realtime_mode id u).configs ≡ u.configs)
      × ((cancel_realtime_mode id u).states ≡ u.states)
unfolding cancel_realtime_mode
cancel_realtime_mode-parts id w u timers intervals = elim (Option-cases (get w.intervals id)) [
  | inl none_here ↦ ground (arith, none_here, timers, intervals)
  | inr (t, here) ↦ ground (arith, here, timers, intervals)
]

-- the row of a paused configuration
abbrev pausing : SyncState → SyncState
pausing s = record s { status = paused; current_job_id = none }

abbrev with_row : String → SyncState → World → World
with_row id s w = record w { states = put w.states id s }

paused-WellFormed :
    (id : String) (s : SyncState) (w : World)
    → WellFormed w
    → get w.states id ≡ some s
    → get w.intervals id ≡ none
    → WellFormed (with_row id (pausing s) w)
paused-WellFormed id s w wf state calm = record {
  registered = wf.registered;
  working = λ t j on.
      ground (arith, wf.working t j, get-put w.states id j (pausing s), calm, on, eq_iff id j);
  rows = λ j. ground (arith, wf.rows j, get-put w.states id j (pausing s), state, eq_iff id j);
}

cancel_paused-After :
    (services : Services) (id : String) (c : SyncConfig) (s : SyncState) (w : World)
    → WellFormed w
    → get w.configs id ≡ some c
    → get w.states id ≡ some s
    → After Anything (
        cancel_mode id c (cancel_running_job services s.current_job_id (with_row id (pausing s) w)))
unfolding cancel_mode
cancel_paused-After services id c s w wf found state =
    elim (Bool-cases (is_active_realtime (some c) && not (is_paused s))) [
      | inl running ↦
          let mode : c.mode ≡ realtime = ground arith in
          let cancelled = cancel_realtime_mode-After id w wf in
          let parts = cancel_realtime_mode-parts id w v same.0 same.1 in
          let own = cancel_realtime_mode-parts id w w refl refl in
          rw (mode, cancel_mode)
            (After-done _ _ _
              (WellFormed-SameView (with_row id (pausing s) (cancel_realtime_mode id w))
                (cancel_realtime_mode id v)
                (paused-WellFormed id s (cancel_realtime_mode id w) cancelled.0
                  (ground (arith, own, state)) cancelled.1)
                (
                  parts.0,
                  parts.1,
                  ground (arith, parts, same, own),
                  ground (arith, parts, same, own),
                ))
              tt)
      | inr idle ↦
          let calm = calm_unless id w wf (ground (arith, found, state, idle)) in
          After-mono _ Anything _ (λ u q. tt)
            (cancel_mode-After id c v
              (WellFormed-SameView (with_row id (pausing s) w) v
                (paused-WellFormed id s w wf state calm) same)
              (ground (arith, same, found)))
    ]
  where
    v : World
    v = cancel_running_job services s.current_job_id (with_row id (pausing s) w)

    same : SameView (with_row id (pausing s) w) v
    same = cancel_running_job-SameView services s.current_job_id (with_row id (pausing s) w)

pub update_state_done :
    (id : String) (change : SyncState → SyncState) (s : SyncState) (w : World)
    → get w.states id ≡ some s
    → update_state id change w ≡ done (record w { states = put w.states id (change s) }) tt
unfolding update_state
update_state_done id change s w found = rw (found, update_state) refl

pub pause_sync_configuration-After :
    (services : Services) (id : String) (w : World)
    → WellFormed w
    → After Anything (pause_sync_configuration services id w)
unfolding pause_sync_configuration
pause_sync_configuration-After services id w wf = elim (Option-cases (get w.configs id)) [
  | inl gone ↦ rw (gone, pause_sync_configuration) (After-refused _ _ _ _ wf)
  | inr (c, found) ↦
      rw (found, pause_sync_configuration)
        (if-After Anything c.is_active _ _
          (λ on. elim (Option-cases (get w.states id)) [
            | inl gone ↦ rw gone (After-refused _ _ _ _ wf)
            | inr (s, state) ↦
                rw (state, update_state_done id pausing s w state)
                  (cancel_paused-After services id c s w wf found state)
          ])
          (λ off. After-refused _ _ _ _ wf))
]

pub resume_sync_configuration-After :
    (services : Services) (id : String) (w : World)
    → WellFormed w
    → After Anything (resume_sync_configuration services id w)
unfolding resume_sync_configuration
resume_sync_configuration-After services id w wf = elim (Option-cases (get w.configs id)) [
  | inl gone ↦ rw (gone, resume_sync_configuration) (After-refused _ _ _ _ wf)
  | inr (c, found) ↦
      rw (found, resume_sync_configuration)
        (if-After Anything c.is_active _ _
          (λ on. elim (Option-cases (get w.states id)) [
            | inl gone ↦ rw gone (After-refused _ _ _ _ wf)
            | inr (s, state) ↦ rw state (
                if-After Anything (is_paused s) _ _
                  (λ asleep.
                    let calm = calm_unless id w wf (ground (arith, found, state, asleep)) in
                    After-and_then (Updated id (λ s. record s { status = active }) w) Anything _ _
                      (update_state-After id (λ s. record s { status = active }) w wf
                        (λ s h. inr calm))
                      (λ v a kept u. start_mode-After services id c v kept on (
                        ground (arith, u, calm),
                        ground (arith, u, found),
                        ground (
                          arith,
                          u,
                          get-put w.states id id (record u.3.0 { status = active }),
                          eq_iff id id,
                        ),
                      )))
                  (λ awake. After-refused _ _ _ _ wf))
          ])
          (λ off. After-refused _ _ _ _ wf))
]
