-- ===== src/Sync/Engine/Cycle.antt =====
-- What a trigger does: one job at a time, and what becomes of a paused configuration.
use db_backup.Prelude.{
  ℕ, String, ◌≡◌, refl, ◌≢◌, ◌⊎◌, inl, inr, Bool, true, false, none, some, arith, eq_iff,
  Bool-cases, Option-cases, get, put, get-put,
}
use db_backup.Sync.Engine.{
  SyncConfig, SyncState, World, Services, Outcome, ◌and_then◌, given, active, waiting, not_paused,
  queue_error, already_running, done, refused,
}
use db_backup.Sync.Engine.Modes.{add_sync_job}
use db_backup.Sync.Engine.Trigger.{is_stale, is_job, clear_stale, claim, enqueue, trigger_sync}
use db_backup.Sync.Engine.Activation.{is_paused, resume_sync_configuration}
use db_backup.Sync.Engine.Reach.{has_timer, WellFormed}
use db_backup.Sync.Engine.Preserved.{calm_unless}
use db_backup.Sync.Engine.Paused.{update_state_done}

-- the row after a trigger
abbrev pub running : String → SyncState → SyncState
running job s = record s { current_job_id = some job; status = active }

-- the state after a trigger
abbrev pub queued : String → Bool → World → String → World
queued id force w job = record w {
  jobs = put w.jobs job (record { config_id = id; full = force; state = waiting });
}

abbrev pub triggered : String → Bool → SyncState → World → String → World
triggered id force s w job = record (queued id force w job) {
  states = put w.states id (running job s);
}

pub enqueue_done :
    (services : Services) (id job : String) (force : Bool) (s : SyncState) (w : World)
    → get w.states id ≡ some s
    → services.add_job w.jobs ≡ some job
    → enqueue services id force w ≡ done (triggered id force s w job) job
unfolding enqueue add_sync_job
enqueue_done services id job force s w state up =
    rw
      (
        up,
        enqueue,
        add_sync_job,
        update_state_done id (running job) s (queued id force w job) state,
      )
      refl

pub enqueue_down :
    (services : Services) (id : String) (force : Bool) (w : World)
    → services.add_job w.jobs ≡ none
    → enqueue services id force w ≡ refused w queue_error
unfolding enqueue add_sync_job
enqueue_down services id force w down = rw (down, enqueue, add_sync_job) refl

-- A trigger, not forced, of a paused configuration without a job is accepted and makes it active, but
-- in the state that it leaves no timer of the configuration runs, and a resume is refused.
pub trigger_sync-paused :
    (services : Services) (id job : String) (c : SyncConfig) (s : SyncState) (w : World)
    → WellFormed w
    → get w.configs id ≡ some c
    → c.is_active ≡ true
    → get w.states id ≡ some s
    → is_paused s ≡ true
    → given s.current_job_id ≡ none
    → services.add_job w.jobs ≡ some job
    → (v : World) × (trigger_sync services id false w ≡ done v job)
      × (get v.states id ≡ some (running job s))
      × ((t : ℕ) → has_timer t id v.timers ≡ false)
      × (resume_sync_configuration services id v ≡ refused v not_paused)
unfolding trigger_sync claim resume_sync_configuration
trigger_sync-paused services id job c s w wf found on state asleep idle up =
    let calm = calm_unless id w wf (ground (arith, found, state, asleep)) in
    (
      triggered id false s w job,
      rw (found, trigger_sync, on, state, claim, idle)
          (enqueue_done services id job false s w state up),
      ground (arith, get-put w.states id id (running job s), eq_iff id id),
      λ t. ground (arith, wf.registered t id, calm),
      rw (found, resume_sync_configuration, on)
          (ground (arith, get-put w.states id id (running job s), eq_iff id id)),
    )

-- no job is noted, or it cannot be looked up, or it is gone, completed or failed
abbrev IsFree : Services → SyncState → World → Type 0
IsFree services s w =
    (given s.current_job_id ≡ none)
    ⊎ ((old : String) × (given s.current_job_id ≡ some old)
        × ((services.finds_job old ≡ false) ⊎ (is_stale (get w.jobs old) ≡ true)))

abbrev Claimed : Services → String → SyncState → World → Outcome Unit → Type 0
Claimed services id s w (done v a) =
    IsFree services s w × ((s' : SyncState) × (get v.states id ≡ some s'))
Claimed services id s w (refused v r) = v ≡ w

clear_stale-row :
    (id job : String) (s : SyncState) (w : World)
    → get w.states id ≡ some s
    → (s' : SyncState) × (get (clear_stale id job w).0.states id ≡ some s')
unfolding clear_stale
clear_stale-row id job s w state = elim (Bool-cases (is_job job s.current_job_id)) [
  | inl own ↦ (
    record s { current_job_id = none },
    rw (state, own, clear_stale)
        (ground (arith, get-put w.states id id (record s { current_job_id = none }), eq_iff id id)),
  )
  | inr other_job ↦ (s, rw (state, other_job, clear_stale) state)
]

claim-Claimed :
    (services : Services) (id : String) (s : SyncState) (w : World)
    → get w.states id ≡ some s
    → Claimed services id s w (claim services id s w)
unfolding claim
claim-Claimed services id s w state = elim (Option-cases (given s.current_job_id)) [
  | inl idle ↦ rw (idle, claim, Claimed) (inl idle, (s, state))
  | inr (job, busy) ↦ elim (Bool-cases (services.finds_job job)) [
    | inr lost ↦
        rw (busy, lost, claim, Claimed)
          (inr (job, busy, inl lost), clear_stale-row id job s w state)
    | inl known ↦ elim (Bool-cases (is_stale (get w.jobs job))) [
      | inr alive ↦ rw (busy, known, alive, claim, Claimed) refl
      | inl stale ↦ elim (Bool-cases (clear_stale id job w).1) [
        | inl cleared ↦
            rw (busy, known, stale, cleared, claim, Claimed)
              (inr (job, busy, inr stale), clear_stale-row id job s w state)
        | inr kept ↦ rw (busy, known, stale, kept, claim, Claimed) refl
      ]
    ]
  ]
]

-- what a trigger of `id` may answer in `w`
abbrev pub Single : Services → String → Bool → World → Outcome String → Type 0
Single services id force w (done v job) =
    (get v.jobs job ≡ some (record { config_id = id; full = force; state = waiting }))
    × ((s' : SyncState) × (get v.states id ≡ some s') × (s'.current_job_id ≡ some job))
    × ((s : SyncState) × (get w.states id ≡ some s) × IsFree services s w)
Single services id force w (refused v r) = (r ≢ already_running) ⊎ (v ≡ w)

-- A trigger that answers a job has queued it as a new waiting job of the configuration and noted it
-- as the current one, and the job that was noted before, if any, is gone, ended or out of reach; a
-- trigger that is refused because a job runs changes nothing.
pub trigger_sync-Single :
    (services : Services) (id : String) (force : Bool) (w : World)
    → Single services id force w (trigger_sync services id force w)
unfolding trigger_sync
trigger_sync-Single services id force w = elim (Option-cases (get w.configs id)) [
  | inl gone ↦ rw (gone, trigger_sync, Single) (inr refl)
  | inr (c, found) ↦ elim (Bool-cases c.is_active) [
    | inr off ↦ rw (found, trigger_sync, off, Single) (inr refl)
    | inl on ↦ elim (Option-cases (get w.states id)) [
      | inl gone ↦ rw (found, trigger_sync, on, gone, Single) (inr refl)
      | inr (s, state) ↦
          rw (found, trigger_sync, on, state)
            (go s state (claim services id s w) (claim-Claimed services id s w state))
    ]
  ]
]
  where
    go :
        (s : SyncState)
        → get w.states id ≡ some s
        → (o : Outcome Unit) → Claimed services id s w o
        → Single services id force w (o and_then λ v a. enqueue services id force v)
    go s state (refused v r) same = inr same
    go s state (done v a) (free, (s', row)) = elim (Option-cases (services.add_job v.jobs)) [
      | inl down ↦ rw (enqueue_down services id force v down, Single) (inl (λ h. cc))
      | inr (job, up) ↦
          rw (enqueue_done services id job force s' v row up, Single)
            (
              ground (
                arith,
                get-put v.jobs job job (record { config_id = id; full = force; state = waiting }),
                eq_iff job job,
              ),
              (
                running job s',
                ground (arith, get-put v.states id id (running job s'), eq_iff id id),
                refl,
              ),
              (s, state, free),
            )
    ]
