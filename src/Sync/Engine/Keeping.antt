-- ===== src/Sync/Engine/Keeping.antt =====
-- Each part of an operation keeps the state well formed.
use db_backup.Prelude.{
  ℕ, String, ◌≡◌, refl, ◌⊎◌, inl, inr, Bool, true, false, not, ◌&&◌, Option, none, some, List, [],
  ◌∷◌, arith, eq_iff, eqb, Option-cases, get, put, get-put, get-remove,
}
use db_backup.Sync.Engine.{
  SyncState, World, Services, Reason, Outcome, ◌and_then◌, world_of, update_state, done, refused,
}
use db_backup.Sync.Engine.Modes.{
  add_sync_job, cancel_job, cancel_running_job, setup_realtime_mode, clear_timer,
  cancel_realtime_mode,
}
use db_backup.Sync.Engine.Activation.{is_paused}
use db_backup.Sync.Engine.Ticking.{stop_timer}
use db_backup.Sync.Engine.Reach.{has_timer, is_active_realtime, is_paused_state, WellFormed}

-- the state after an outcome is well formed, and `Q` holds of it if the operation was done
unfoldable pub After : (World → Type 0) → {A : Type 0} → Outcome A → Type 0
After Q (done w a) = WellFormed w × Q w
After Q (refused w r) = WellFormed w

pub After-done :
    {A : Type 0} (Q : World → Type 0) (w : World) (a : A) → WellFormed w → Q w → After Q (done w a)
unfolding After
After-done Q w a wf q = (wf, q)

pub After-refused :
    (A : Type 0) (Q : World → Type 0) (w : World) (r : Reason)
    → WellFormed w
    → After Q {A = A} (refused w r)
unfolding After
After-refused A Q w r wf = wf

abbrev pub Anything : World → Type 0
Anything w = Unit

pub After-and_then :
    {A B : Type 0} (Q R : World → Type 0) (o : Outcome A) (k : World → A → Outcome B)
    → After Q o
    → ((w : World) (a : A) → WellFormed w → Q w → After R (k w a))
    → After R (o and_then k)
unfolding After
After-and_then Q R (done w a) k h step = step w a h.0 h.1
After-and_then Q R (refused w r) k h step = h

pub WellFormed-world_of :
    {A : Type 0} (Q : World → Type 0) (o : Outcome A) → After Q o → WellFormed (world_of o)
unfolding After
WellFormed-world_of Q (done w a) h = h.0
WellFormed-world_of Q (refused w r) h = h

-- the same as far as being well formed goes
abbrev pub SameView : World → World → Type 0
SameView w v =
    (v.timers ≡ w.timers)
    × (v.intervals ≡ w.intervals)
    × (v.configs ≡ w.configs)
    × (v.states ≡ w.states)

pub WellFormed-SameView : (w v : World) → WellFormed w → SameView w v → WellFormed v
WellFormed-SameView w v wf same = record {
  registered = λ t id. ground (arith, wf.registered t id, same);
  working = λ t id. ground (arith, wf.working t id, same);
  rows = λ id. ground (arith, wf.rows id, same);
}

pub cancel_running_job-SameView :
    (services : Services) (current : Option String) (w : World)
    → SameView w (cancel_running_job services current w)
unfolding cancel_running_job cancel_job
cancel_running_job-SameView services current w = ground arith

pub add_sync_job-After :
    (services : Services) (id : String) (full : Bool) (w : World)
    → WellFormed w
    → After (SameView w) (add_sync_job services id full w)
unfolding add_sync_job After
add_sync_job-After services id full w wf = elim (Option-cases (services.add_job w.jobs)) [
  | inl down ↦ rw (down, add_sync_job, After) wf
  | inr (job, up) ↦
      rw (up, add_sync_job, After)
        (WellFormed-SameView w _ wf (refl, refl, refl, refl), (refl, refl, refl, refl))
]

abbrev pub Updated : String → (SyncState → SyncState) → World → World → Type 0
Updated id change w v =
    (v.timers ≡ w.timers)
    × (v.intervals ≡ w.intervals)
    × (v.configs ≡ w.configs)
    × ((s : SyncState) × (get w.states id ≡ some s) × (v.states ≡ put w.states id (change s)))

pub update_state-After :
    (id : String) (change : SyncState → SyncState) (w : World)
    → WellFormed w
    → ((s : SyncState)
        → is_paused (change s) ≡ true
        → (is_paused s ≡ true) ⊎ (get w.intervals id ≡ none))
    → After (Updated id change w) (update_state id change w)
unfolding update_state After
update_state-After id change w wf calm = elim (Option-cases (get w.states id)) [
  | inl gone ↦ rw (gone, update_state, After) wf
  | inr (s, found) ↦
      rw (found, update_state, After)
        (
          record {
            registered = wf.registered;
            working = λ t j on. ground (
              arith,
              wf.working t j,
              get-put w.states id j (change s),
              calm s,
              found,
              on,
              eq_iff id j,
            );
            rows = λ j.
                ground (arith, wf.rows j, get-put w.states id j (change s), found, eq_iff id j);
          },
          (refl, refl, refl, (s, found, refl)),
        )
]

pub setup_realtime_mode-WellFormed :
    (id : String) (w : World)
    → WellFormed w
    → get w.intervals id ≡ none
    → is_active_realtime (get w.configs id) ≡ true
    → is_paused_state (get w.states id) ≡ false
    → WellFormed (setup_realtime_mode id w)
unfolding setup_realtime_mode
setup_realtime_mode-WellFormed id w wf calm on awake = record {
  registered = λ t j h.
      ground (arith, wf.registered t j, get-put w.intervals id j w.next_timer, eq_iff id j);
  working = λ t j h.
      ground (arith, wf.working t j, get-put w.intervals id j w.next_timer, on, awake, eq_iff id j);
  rows = wf.rows;
}

has_timer-clear_timer :
    (t u : ℕ) (id : String) (timers : List (ℕ × String))
    → has_timer u id (clear_timer t timers) ≡ (has_timer u id timers && not (eqb u t))
unfolding clear_timer
has_timer-clear_timer t u id [] = refl
has_timer-clear_timer t u id (timer ∷ timers) = ground (arith, has_timer-clear_timer t u id timers)

pub stop_timer-WellFormed :
    (t : ℕ) (id : String) (w : World)
    → WellFormed w
    → (get w.intervals id ≡ none) ⊎ (get w.intervals id ≡ some t)
    → WellFormed (stop_timer t id w)
unfolding stop_timer
stop_timer-WellFormed t id w wf own = record {
  registered = λ u j h. ground (
    arith,
    wf.registered u j,
    has_timer-clear_timer t u j w.timers,
    get-remove w.intervals id j,
    own,
    eq_iff id j,
    wf.registered u id,
    h,
  );
  working = λ u j h. ground (arith, wf.working u j, get-remove w.intervals id j, h);
  rows = wf.rows;
}

pub cancel_realtime_mode-After :
    (id : String) (w : World)
    → WellFormed w
    → WellFormed (cancel_realtime_mode id w) × (get (cancel_realtime_mode id w).intervals id ≡ none)
unfolding cancel_realtime_mode stop_timer
cancel_realtime_mode-After id w wf = elim (Option-cases (get w.intervals id)) [
  | inl none_here ↦ rw (none_here, cancel_realtime_mode) (wf, none_here)
  | inr (t, here) ↦
      rw (here, cancel_realtime_mode)
        (
          stop_timer-WellFormed t id w wf (inr here),
          ground (arith, get-remove w.intervals id id, eq_iff id id),
        )
]
