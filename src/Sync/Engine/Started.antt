-- ===== src/Sync/Engine/Started.antt =====
-- Switching a configuration on and starting its work keep the state well formed.
use db_backup.Prelude.{
  String, ◌≡◌, refl, inl, inr, Bool, true, false, Option, none, some, arith, eq_iff, if◌then◌else◌,
  Option-cases, get, put, get-put,
}
use db_backup.Sync.Values.{source, target}
use db_backup.Sync.Engine.{
  Mode, SyncConfig, SyncState, World, Services, ◌and_then◌, given, set_active, realtime, scheduled,
  manual, active, tracking_error, refused,
}
use db_backup.Sync.Engine.Modes.{both_ways, note_next_run, setup_scheduled_mode, start_mode}
use db_backup.Sync.Engine.Activation.{create_state, note_checkpoints, switch_on}
use db_backup.Sync.Engine.Reach.{is_paused_state, WellFormed}
use db_backup.Sync.Engine.Keeping.{
  After, After-done, After-refused, Anything, WellFormed-SameView, update_state-After,
  setup_realtime_mode-WellFormed,
}
use db_backup.Sync.Engine.Preserved.{After-mono, if-After}
use db_backup.Sync.Engine.Kept.{set_active_done}

-- a new row, active, where no timer is registered
activated-WellFormed :
    (id : String) (c : SyncConfig) (s : SyncState) (w : World)
    → WellFormed w
    → get w.intervals id ≡ none
    → WellFormed (record w {
      states = put w.states id s;
      configs = put w.configs id (record c { is_active = true });
    })
activated-WellFormed id c s w wf calm = record {
  registered = wf.registered;
  working = λ t j h. ground (
    arith,
    wf.working t j h,
    get-put w.states id j s,
    get-put w.configs id j (record c { is_active = true }),
    calm,
    h,
    eq_iff id j,
  );
  rows = λ j. ground (
    arith,
    wf.rows j,
    get-put w.states id j s,
    get-put w.configs id j (record c { is_active = true }),
    eq_iff id j,
  );
}

-- ready to start: active, awake, and no timer is registered
abbrev pub Ready : String → SyncConfig → World → Type 0
Ready id c v =
    (get v.intervals id ≡ none)
    × (get v.configs id ≡ some c)
    × (is_paused_state (get v.states id) ≡ false)

abbrev pub switched_on : SyncConfig → SyncConfig
switched_on c = record c { is_active = true }

create_state-After :
    (id : String) (c : SyncConfig) (from back : Option String) (w : World)
    → WellFormed w
    → get w.intervals id ≡ none
    → get w.configs id ≡ some c
    → After
        (Ready id (switched_on c))
        (create_state id from back w and_then λ v x. set_active id true v)
unfolding create_state
create_state-After id c from back w wf calm found = elim (Option-cases (get w.states id)) [
  | inr (s, there) ↦ rw (there, create_state) (After-refused _ _ _ _ wf)
  | inl new ↦
      let s : SyncState = record {
        status = active;
        source_checkpoint = from;
        target_checkpoint = back;
        current_job_id = none;
        next_sync_at = none;
        consecutive_failures = 0;
        current_progress = 0;
        current_table = none;
        last_sync_at = none;
        total_rows_synced = 0;
        last_sync_duration = none;
        average_sync_duration = none;
        last_error = none;
        last_error_at = none;
      } in
      rw
        (
          new,
          create_state,
          set_active_done id true c (record w { states = put w.states id s }) found,
        )
        (After-done _ _ _ (activated-WellFormed id c s w wf calm) (
          calm,
          ground (arith, get-put w.configs id id (switched_on c), eq_iff id id),
          ground (arith, get-put w.states id id s, eq_iff id id),
        ))
]

note_next_run-After :
    (services : Services) (id cron : String) (w : World)
    → WellFormed w
    → After Anything (note_next_run services id cron w)
unfolding note_next_run
note_next_run-After services id cron w wf = elim (Option-cases (services.next_run cron)) [
  | inl bad ↦ rw (bad, note_next_run) (After-refused _ _ _ _ wf)
  | inr (at, good) ↦
      rw (good, note_next_run)
        (After-mono _ Anything _ (λ v u. tt)
          (update_state-After id (λ s. record s { next_sync_at = some at }) w wf (λ s h. inl h)))
]

setup_scheduled_mode-After :
    (services : Services) (id : String) (w : World)
    → WellFormed w
    → After Anything (setup_scheduled_mode services id w)
unfolding setup_scheduled_mode
setup_scheduled_mode-After services id w wf = elim (Option-cases (get w.configs id)) [
  | inl gone ↦ rw (gone, setup_scheduled_mode) (After-refused _ _ _ _ wf)
  | inr (c, found) ↦ elim (Option-cases (given c.cron_expression)) [
    | inl silent ↦ rw (found, silent, setup_scheduled_mode) (After-refused _ _ _ _ wf)
    | inr (cron, spoken) ↦
        rw (found, spoken, setup_scheduled_mode)
          (if-After Anything (services.adds_scheduler cron) _ _
            (λ e.
              note_next_run-After services id cron _
                (WellFormed-SameView w _ wf (refl, refl, refl, refl)))
            (λ e. After-refused _ _ _ _ wf))
  ]
]

pub start_mode-After :
    (services : Services) (id : String) (c : SyncConfig) (w : World)
    → WellFormed w
    → c.is_active ≡ true
    → Ready id c w
    → After Anything (start_mode services id c w)
unfolding start_mode
start_mode-After services id c w wf on ready = go c.mode refl
  where
    go : (m : Mode) → c.mode ≡ m → After Anything (start_mode services id c w)
    go realtime mode =
        rw (mode, start_mode)
          (After-done _ _ _
            (setup_realtime_mode-WellFormed id w wf ready.0 (ground (arith, ready.1, on, mode))
              ready.2)
            tt)
    go manual mode = rw (mode, start_mode) (After-done _ _ _ wf tt)
    go scheduled mode = elim (Option-cases (given c.cron_expression)) [
      | inl silent ↦ rw (mode, silent, start_mode) (After-done _ _ _ wf tt)
      | inr (cron, spoken) ↦
          rw (mode, spoken, start_mode) (setup_scheduled_mode-After services id w wf)
    ]

pub switch_on-After :
    (services : Services) (id : String) (c : SyncConfig) (w : World)
    → WellFormed w
    → get w.intervals id ≡ none
    → get w.configs id ≡ some c
    → After (Ready id (switched_on c)) (switch_on services id c w)
unfolding switch_on note_checkpoints
switch_on-After services id c w wf calm found =
    go (services.checkpoint c source) (both_ways c) (services.checkpoint c target)
  where
    go :
        (from : Option String) (both : Bool) (back : Option String)
        → After (Ready id (switched_on c)) (
            (elim from [
              | none ↦ refused w tracking_error
              | some from ↦
                  if both
                  then elim back [
                    | none ↦ refused w tracking_error
                    | some back ↦ create_state id (some from) (some back) w
                  ]
                  else create_state id (some from) none w
            ])
            and_then λ v a. set_active id true v)
    go none both back = After-refused _ _ _ _ wf
    go (some from) true none = After-refused _ _ _ _ wf
    go (some from) true (some back) =
        create_state-After id c (some from) (some back) w wf calm found
    go (some from) false back = create_state-After id c (some from) none w wf calm found
