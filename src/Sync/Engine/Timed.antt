-- ===== src/Sync/Engine/Timed.antt =====
-- Triggers, ticks of the timers and restarts keep the state well formed.
use db_backup.Prelude.{
  ℕ, String, ◌≡◌, refl, inl, inr, Bool, true, false, ◌&&◌, Option, none, some, List, [], ◌∷◌, arith,
  ◌==◌, eq_iff, if◌then◌else◌, Bool-cases, Option-cases, includes, Distinct, get, get-put,
}
use db_backup.Sync.Engine.{
  Status, SyncState, World, Services, given, active, paused, failed, stopped,
}
use db_backup.Sync.Engine.Modes.{setup_realtime_mode}
use db_backup.Sync.Engine.Trigger.{is_stale, is_job, clear_stale, claim, enqueue, trigger_sync}
use db_backup.Sync.Engine.Activation.{is_paused, job_of}
use db_backup.Sync.Engine.Ticking.{
  is_realtime, is_some, has_changes, tick, is_status_active, recover_one, recover_realtime_configs,
  restart,
}
use db_backup.Sync.Engine.Reach.{is_paused_state, WellFormed}
use db_backup.Sync.Engine.Keeping.{
  After, After-done, After-refused, Anything, After-and_then, WellFormed-world_of, SameView,
  add_sync_job-After, Updated, update_state-After, setup_realtime_mode-WellFormed,
  stop_timer-WellFormed,
}
use db_backup.Sync.Engine.Preserved.{calm_unless, if-After}

clear_stale-WellFormed :
    (id job : String) (w : World) → WellFormed w → WellFormed (clear_stale id job w).0
unfolding clear_stale
clear_stale-WellFormed id job w wf = elim (Option-cases (get w.states id)) [
  | inl gone ↦ rw (gone, clear_stale) wf
  | inr (s, found) ↦ elim (Bool-cases (is_job job s.current_job_id)) [
    | inr other_job ↦ rw (found, other_job, clear_stale) wf
    | inl own ↦
        rw (found, own, clear_stale)
          (record {
            registered = wf.registered;
            working = λ t j on. ground (
              arith,
              wf.working t j on,
              get-put w.states id j (record s { current_job_id = none }),
              found,
              eq_iff id j,
            );
            rows = λ j. ground (
              arith,
              wf.rows j,
              get-put w.states id j (record s { current_job_id = none }),
              found,
              eq_iff id j,
            );
          })
  ]
]

claim-After :
    (services : Services) (id : String) (s : SyncState) (w : World)
    → WellFormed w
    → After Anything (claim services id s w)
unfolding claim
claim-After services id s w wf = elim (Option-cases (given s.current_job_id)) [
  | inl idle ↦ rw (idle, claim) (After-done _ _ _ wf tt)
  | inr (job, busy) ↦
      rw (busy, claim)
        (if-After Anything (services.finds_job job) _ _
          (λ e.
            if-After Anything (is_stale (get w.jobs job)) _ _
              (λ e.
                if-After Anything (clear_stale id job w).1 _ _
                  (λ e. After-done _ _ _ (clear_stale-WellFormed id job w wf) tt)
                  (λ e. After-refused _ _ _ _ wf))
              (λ e. After-refused _ _ _ _ wf))
          (λ e. After-done _ _ _ (clear_stale-WellFormed id job w wf) tt))
]

enqueue-After :
    (services : Services) (id : String) (force : Bool) (w : World)
    → WellFormed w
    → After Anything (enqueue services id force w)
unfolding enqueue
enqueue-After services id force w wf =
    After-and_then (SameView w) Anything _ _ (add_sync_job-After services id force w wf)
      (λ v job kept same.
        After-and_then (Updated id (λ s. record s { current_job_id = some job; status = active }) v)
          Anything _ _
          (update_state-After id (λ s. record s { current_job_id = some job; status = active }) v
            kept (λ s h. cc))
          (λ u a after q. After-done _ _ _ after tt))

pub trigger_sync-After :
    (services : Services) (id : String) (force : Bool) (w : World)
    → WellFormed w
    → After Anything (trigger_sync services id force w)
unfolding trigger_sync
trigger_sync-After services id force w wf = elim (Option-cases (get w.configs id)) [
  | inl gone ↦ rw (gone, trigger_sync) (After-refused _ _ _ _ wf)
  | inr (c, found) ↦
      rw (found, trigger_sync)
        (if-After Anything c.is_active _ _
          (λ on. elim (Option-cases (get w.states id)) [
            | inl gone ↦ rw gone (After-refused _ _ _ _ wf)
            | inr (s, state) ↦ rw state (
                After-and_then Anything Anything _ _ (claim-After services id s w wf)
                  (λ v a kept q. enqueue-After services id force v kept))
          ])
          (λ off. After-refused _ _ _ _ wf))
]

either-WellFormed :
    (b : Bool) (x y : World)
    → (b ≡ true → WellFormed x)
    → (b ≡ false → WellFormed y)
    → WellFormed (if b then x else y)
either-WellFormed true x y f g = f refl
either-WellFormed false x y f g = g refl

pub tick-WellFormed :
    (services : Services) (t : ℕ) (id : String) (w : World)
    → WellFormed w
    → WellFormed (tick services t id w)
unfolding tick
tick-WellFormed services t id w wf = elim (Option-cases (get w.configs id)) [
  | inl gone ↦
      rw (gone, tick)
        (stop_timer-WellFormed t id w wf (inl (calm_unless id w wf (ground (arith, gone)))))
  | inr (c, found) ↦
      rw (found, tick)
        (either-WellFormed (c.is_active && is_realtime c) _ _
          (λ on.
            either-WellFormed (is_some (given (job_of (get w.states id)))) _ _ (λ e. wf)
              (λ e.
                either-WellFormed (has_changes id w.logs) _ _
                  (λ e. WellFormed-world_of Anything _ (trigger_sync-After services id false w wf))
                  (λ e. wf)))
          (λ off.
            stop_timer-WellFormed t id w wf
              (inl (calm_unless id w wf (ground (arith, found, off))))))
]

recover_one-WellFormed :
    (id : String) (w : World)
    → WellFormed w
    → get w.intervals id ≡ none
    → WellFormed (recover_one id w)
unfolding recover_one
recover_one-WellFormed id w wf calm = elim (Option-cases (get w.configs id)) [
  | inl gone ↦ rw (gone, recover_one) wf
  | inr (c, found) ↦
      rw (found, recover_one)
        (either-WellFormed (c.is_active && is_realtime c && is_status_active (get w.states id)) _ _
          (λ on.
            setup_realtime_mode-WellFormed id w wf calm (ground (arith, found, on))
              (awake (get w.states id) (ground (arith, on))))
          (λ off. wf))
]
  where
    awake : (o : Option SyncState) → is_status_active o ≡ true → is_paused_state o ≡ false
    awake none h = refl
    awake (some s) h = status s.status refl h
      where
        status :
            (x : Status) → s.status ≡ x → is_status_active (some s) ≡ true → is_paused s ≡ false
        status active e h = ground (arith, e)
        status paused e h = ground (arith, e)
        status failed e h = ground (arith, e)
        status stopped e h = ground (arith, e)

recover_one-intervals :
    (id j : String) (w : World)
    → (id == j) ≡ false
    → get w.intervals j ≡ none
    → get (recover_one id w).intervals j ≡ none
unfolding recover_one setup_realtime_mode
recover_one-intervals id j w differ calm =
    ground (arith, get-put w.intervals id j w.next_timer, differ, calm)

recover_realtime_configs-WellFormed :
    (ids : List String) (w : World)
    → Distinct ids
    → ((j : String) → includes ids j ≡ true → get w.intervals j ≡ none)
    → WellFormed w
    → WellFormed (recover_realtime_configs ids w)
unfolding recover_realtime_configs
recover_realtime_configs-WellFormed [] w distinct calm wf = wf
recover_realtime_configs-WellFormed (id ∷ ids) w distinct calm wf =
    recover_realtime_configs-WellFormed ids (recover_one id w) distinct.1
      (λ j m.
        recover_one-intervals id j w (ground (arith, distinct.0, m, eq_iff id j))
          (calm j (ground (arith, m))))
      (recover_one-WellFormed id w wf (calm id (ground (arith, eq_iff id id))))

pub restart-WellFormed :
    (ids : List String) (w : World) → Distinct ids → WellFormed w → WellFormed (restart ids w)
unfolding restart get
restart-WellFormed ids w distinct wf =
    recover_realtime_configs-WellFormed ids (record w { timers = []; intervals = [] }) distinct
      (λ j m. refl) (record { registered = λ t id h. cc; working = λ t id h. cc; rows = wf.rows })
