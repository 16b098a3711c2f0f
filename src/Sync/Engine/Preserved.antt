-- ===== src/Sync/Engine/Preserved.antt =====
-- Starting, cancelling and stopping the work of a configuration keep the state well formed.
use db_backup.Prelude.{
  String, ◌≡◌, refl, ◌∙◌, inl, inr, Bool, true, false, not, ◌&&◌, none, some, arith, if◌then◌else◌,
  Option-cases, get, remove,
}
use db_backup.Sync.Values.{Origin, source, target}
use db_backup.Sync.Engine.{
  Mode, SyncConfig, World, Services, Outcome, update_state, realtime, scheduled, manual,
  unsupported, tracking_error, done, refused,
}
use db_backup.Sync.Engine.Modes.{
  supports_tracking, connection_of, with_tracker, track, untrack, initialize_tracking,
  teardown_tracking, cancel_realtime_mode, cancel_scheduled_mode, cancel_mode,
}
use db_backup.Sync.Engine.Reach.{is_active_realtime, is_paused_state, WellFormed}
use db_backup.Sync.Engine.Keeping.{
  After, After-done, After-refused, SameView, WellFormed-SameView, Updated, update_state-After,
  cancel_realtime_mode-After,
}

pub After-mono :
    {A : Type 0} (Q R : World → Type 0) (o : Outcome A)
    → ((w : World) → Q w → R w)
    → After Q o
    → After R o
unfolding After
After-mono Q R (done w a) f h = (h.0, f w h.1)
After-mono Q R (refused w r) f h = h

pub calm_unless :
    (id : String) (w : World)
    → WellFormed w
    → (is_active_realtime (get w.configs id) && not (is_paused_state (get w.states id))) ≡ false
    → get w.intervals id ≡ none
calm_unless id w wf off = elim (Option-cases (get w.intervals id)) [
  | inl none_here ↦ none_here
  | inr (t, here) ↦ absurd (ground (arith, wf.working t id here, off))
]

abbrev pub Cancelled : String → World → World → Type 0
Cancelled id w v = (v.configs ≡ w.configs) × (get v.intervals id ≡ none)

cancel_realtime_mode-configs :
    (id : String) (w : World) → (cancel_realtime_mode id w).configs ≡ w.configs
unfolding cancel_realtime_mode
cancel_realtime_mode-configs id w = ground arith

pub cancel_mode-After :
    (id : String) (c : SyncConfig) (w : World)
    → WellFormed w
    → get w.configs id ≡ some c
    → After (Cancelled id w) (cancel_mode id c w)
unfolding cancel_mode cancel_scheduled_mode
cancel_mode-After id c w wf found = go c.mode refl
  where
    go : (m : Mode) → c.mode ≡ m → After (Cancelled id w) (cancel_mode id c w)
    go realtime mode =
        let cancelled = cancel_realtime_mode-After id w wf in
        rw (mode, cancel_mode)
          (After-done _ _ _ cancelled.0 (cancel_realtime_mode-configs id w, cancelled.1))
    go manual mode =
        rw (mode, cancel_mode)
          (After-done _ _ _ wf (refl, calm_unless id w wf (ground (arith, found, mode))))
    go scheduled mode =
        let calm = calm_unless id w wf (ground (arith, found, mode)) in
        let dropped : World = record w { schedulers = remove w.schedulers id } in
        rw (mode, cancel_mode)
          (After-mono (Updated id (λ s. record s { next_sync_at = none }) dropped) (Cancelled id w)
            (update_state id (λ s. record s { next_sync_at = none }) dropped)
            (λ v u. (u.2, ground (arith, u.1, calm)))
            (update_state-After id (λ s. record s { next_sync_at = none }) dropped
              (WellFormed-SameView w dropped wf (refl, refl, refl, refl)) (λ s h. inl h)))

pub if-After :
    {A : Type 0} (Q : World → Type 0) (b : Bool) (x y : Outcome A)
    → (b ≡ true → After Q x)
    → (b ≡ false → After Q y)
    → After Q (if b then x else y)
if-After Q true x y f g = f refl
if-After Q false x y f g = g refl

-- the installation or removal of triggers
with_tracker-After :
    (side : Origin) (c : SyncConfig) (w : World) (k : World → Outcome Unit) (Q : World → Type 0)
    → WellFormed w
    → After Q (k w)
    → After Q (with_tracker side c w k)
unfolding with_tracker
with_tracker-After side c w k Q wf h =
    if-After Q (supports_tracking (connection_of side c).kind) (k w) (refused w unsupported)
      (λ e. h) (λ e. After-refused _ _ _ _ wf)

SameView-track : (side : Origin) (id : String) (w : World) → SameView w (track side id w)
SameView-track source id w = (refl, refl, refl, refl)
SameView-track target id w = (refl, refl, refl, refl)

SameView-untrack : (side : Origin) (id : String) (w : World) → SameView w (untrack side id w)
SameView-untrack source id w = (refl, refl, refl, refl)
SameView-untrack target id w = (refl, refl, refl, refl)

module _ (services : Services) where
  pub initialize_tracking-After :
      (side : Origin) (id : String) (c : SyncConfig) (w : World)
      → WellFormed w
      → After (SameView w) (initialize_tracking services side id c w)
  unfolding initialize_tracking
  initialize_tracking-After side id c w wf =
      with_tracker-After side c w
        (λ v.
          if services.initializes c side
          then done (track side id v) tt
          else refused v tracking_error)
        (SameView w) wf
        (if-After (SameView w) (services.initializes c side) (done (track side id w) tt)
          (refused w tracking_error)
          (λ e.
            After-done _ _ _ (WellFormed-SameView w _ wf (SameView-track side id w))
              (SameView-track side id w))
          (λ e. After-refused _ _ _ _ wf))

  pub teardown_tracking-After :
      (side : Origin) (id : String) (c : SyncConfig) (w : World)
      → WellFormed w
      → After (SameView w) (teardown_tracking services side id c w)
  unfolding teardown_tracking
  teardown_tracking-After side id c w wf =
      with_tracker-After side c w
        (λ v.
          if services.tears_down c side
          then done (untrack side id v) tt
          else refused v tracking_error)
        (SameView w) wf
        (if-After (SameView w) (services.tears_down c side) (done (untrack side id w) tt)
          (refused w tracking_error)
          (λ e.
            After-done _ _ _ (WellFormed-SameView w _ wf (SameView-untrack side id w))
              (SameView-untrack side id w))
          (λ e. After-refused _ _ _ _ wf))

pub SameView-trans : (u v w : World) → SameView u v → SameView v w → SameView u w
SameView-trans u v w h k = (k.0 ∙ h.0, k.1 ∙ h.1, k.2 ∙ h.2, k.3 ∙ h.3)
