-- ===== src/Sync/Incremental/Refused.antt =====
-- What a conflict does to a run.
use db_backup.Prelude.{
  ℕ, String, ◌≡◌, refl, inl, inr, true, false, ◌&&◌, not, List, [], ◌∷◌, All, arith, Bool-cases,
  Option-cases, Map, get, sym, ◌∙◌,
}
use db_backup.Sync.Values.{ChangeLog}
use db_backup.Sync.Conflicts.{
  Strategy, Conflict, is_storable, log_key, conflict_of, match_sources, detect_conflicts,
  target_change_map, Failure, unknown_strategy, not_stored, error,
}
use db_backup.Sync.Conflicts.Laws.{resolve_conflict-Outcome}
use db_backup.Sync.Incremental.{Config, SyncDb, Environment, failed, no_time}
use db_backup.Sync.Incremental.Runs.{
  Resolving, resolve_all, nothing_done, is_empty, conflicts_between, sync_fetched,
  execute_incremental_sync,
}
use db_backup.Sync.Incremental.Contested.{
  has_key, has_key-empty, has_conflict, has_conflict-conflicts_between,
}
use db_backup.Sync.Incremental.Delivery.{fetched_sources, fetched_targets}

match_sources-lacking :
    (now : ℕ) (m : Map ChangeLog) (sources : List ChangeLog)
    → All (λ c. is_storable c ≡ false) (match_sources now no_time m sources)
unfolding match_sources conflict_of
match_sources-lacking now m [] = tt
match_sources-lacking now m (s ∷ sources) = elim (Option-cases (get m (log_key s))) [
  | inl alone ↦ rw (alone, match_sources) (match_sources-lacking now m sources)
  | inr (t, found) ↦ rw (found, match_sources) (ground arith, match_sources-lacking now m sources)
]

conflicts_between-lacking :
    (env : Environment) (config : Config) (sources targets : List ChangeLog)
    → All (λ c. is_storable c ≡ false) (conflicts_between env config sources targets)
unfolding conflicts_between detect_conflicts
conflicts_between-lacking env config sources targets =
    elim (Bool-cases (config.bidirectional && not (is_empty targets))) [
      | inl two_way ↦
          rw (two_way, conflicts_between)
            (match_sources-lacking env.now (target_change_map [] targets) sources)
      | inr alone ↦ rw (alone, conflicts_between) tt
    ]

-- The first conflict that lacks a column ends the loop.
resolve_all-lacking :
    (env : Environment) (strategy : Strategy) (c : Conflict) (cs : List Conflict) (s : Resolving)
    → is_storable c ≡ false
    → (e : Failure) × (resolve_all env strategy (c ∷ cs) s ≡ error e)
unfolding resolve_all
resolve_all-lacking env strategy c cs s lacks =
    elim (resolve_conflict-Outcome env.new_id s.rows env.now c strategy) [
      | inl (name, _, refused) ↦ (unknown_strategy name, rw (refused, resolve_all) refl)
      | inr (inl (_, refused)) ↦ (not_stored, rw (refused, resolve_all) refl)
      | inr (inr (fits, _)) ↦ absurd (true-ne-false (sym fits ∙ lacks))
    ]
  where
    true-ne-false : ¬ (true ≡ false)
    true-ne-false e = cc

conflicts-refused :
    (env : Environment) (strategy : Strategy) (key : String) (conflicts : List Conflict)
    (s : Resolving)
    → All (λ c. is_storable c ≡ false) conflicts
    → has_conflict key conflicts ≡ true
    → (e : Failure) × (resolve_all env strategy conflicts s ≡ error e)
conflicts-refused env strategy key [] s lacking has = absurd (no has)
  where
    no : ¬ (false ≡ true)
    no e = cc
conflicts-refused env strategy key (c ∷ cs) s lacking has =
    resolve_all-lacking env strategy c cs s lacking.0

-- If both sides changed a record, by the fetched changes of a run in both directions, the run fails
-- and leaves every table as it was, whatever the strategy.
pub execute_incremental_sync-contested :
    (env : Environment) (config : Config) (db : SyncDb) (key : String)
    → config.bidirectional ≡ true
    → has_key key (fetched_sources env config db) ≡ true
    → has_key key (fetched_targets env config db) ≡ true
    → execute_incremental_sync env config db ≡ failed (nothing_done db)
unfolding execute_incremental_sync sync_fetched
execute_incremental_sync-contested env config db key two_way ours theirs =
    let sources = fetched_sources env config db in
    let targets = fetched_targets env config db in
    let start : Resolving = record { rows = db.conflicts; keys = []; resolved = 0 } in
    let has : has_conflict key (conflicts_between env config sources targets) ≡ true =
      has_conflict-conflicts_between env config sources targets key
        (λ off. absurd (never (sym two_way ∙ off)))
      ∙ ground (arith, ours, theirs) in
    let (e, refused) =
      conflicts-refused env config.conflict_strategy key
        (conflicts_between env config sources targets) start
        (conflicts_between-lacking env config sources targets) has in
    let busy : (is_empty sources && is_empty targets) ≡ false =
      ground (arith, has_key-empty key sources, ours) in
    rw (busy, refused) refl
  where
    never : ¬ (true ≡ false)
    never e = cc
