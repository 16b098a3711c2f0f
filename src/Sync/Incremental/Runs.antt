-- ===== src/Sync/Incremental/Runs.antt =====
-- executeIncrementalSync: the batches and the tables of one direction, the conflicts, and the run of
-- both directions.
use db_backup.Prelude.{
  ℕ, suc, ◌+◌, String, Bool, true, false, not, ◌&&◌, none, some, List, [], ◌∷◌, ◌++◌, if◌then◌else◌,
  length, select, count, includes, add, Map, or_else, get, put,
}
use db_backup.Sync.Values.{Origin, ChangeLog, source, target}
use db_backup.Sync.Keys.{create_conflict_key}
use db_backup.Sync.TableOrder.{get_tables_in_dependency_order, ordered, strict_error}
use db_backup.Sync.Conflicts.{
  Strategy, Resolution, Conflict, detect_conflicts, Result, resolve_conflict, source, target,
  manual, ok, error,
}
use db_backup.Sync.Incremental.{
  Config, SyncDb, Environment, Progress, Run, ◌>>=◌, is_valid, fetch, batches, rows_of, add_rows,
  mark_rows, note_checkpoint, is_origin, no_time, finished, failed, stuck,
}

module _ (env : Environment) where
  unfoldable pub sync_valid : Origin → String → List ChangeLog → Progress → Run
  unfolding add_rows mark_rows note_checkpoint
  sync_valid side table [] p = finished p
  sync_valid side table (c ∷ cs) p =
      let valid = c ∷ cs in
      let rows = rows_of side p.db in
      let p1 = record p { db = add_rows side valid p.db } in
      let p2 = record p1 { db = mark_rows valid p1.db } in
      let p3 = record p2 {
        db = note_checkpoint side valid p2.db;
        total_rows_synced = p.total_rows_synced + length valid;
      } in
      if not (env.commits side rows table valid)
      then failed p
      else if not (env.marks side rows table valid)
      then failed p1
      else if not (env.notes side rows table valid)
      then failed p2
      else if is_origin side source && not (env.reports rows table valid)
      then failed p3
      else finished p3

  -- one round of the inner loop
  unfoldable pub sync_batch : Origin → String → List ChangeLog → Progress → Run
  unfolding sync_valid
  sync_batch side table batch p =
      sync_valid side table (select is_valid batch)
        (record p { validation_errors = p.validation_errors + count (λ c. not (is_valid c)) batch })

  unfoldable pub sync_batches : Origin → String → List (List ChangeLog) → Progress → Run
  sync_batches side table [] p = finished p
  sync_batches side table (batch ∷ rest) p =
      sync_batch side table batch p >>= sync_batches side table rest

  unfoldable pub sync_changes : Origin → String → ℕ → List ChangeLog → Progress → Run
  sync_changes side table size changes p = elim (batches (suc (length changes)) size changes) [
    | none ↦ stuck
    | some bs ↦ sync_batches side table bs p
  ]

  -- The source loop notes the current table and counts the tables; the target loop does neither.
  unfoldable pub enter_table : Origin → String → Progress → Run
  enter_table source table p =
      if env.enters table
      then finished (record p { db = record p.db { current_table = some table } })
      else failed p
  enter_table target table p = finished p

  unfoldable pub leave_table : Origin → Progress → Progress
  leave_table source p = record p { tables_processed = p.tables_processed + 1 }
  leave_table target p = p

  unfoldable pub sync_tables : Origin → ℕ → Map (List ChangeLog) → List String → Progress → Run
  unfolding enter_table leave_table
  sync_tables side size groups [] p = finished p
  sync_tables side size groups (table ∷ tables) p =
      (enter_table side table p >>= sync_changes side table size (or_else (get groups table) []))
      >>= λ q. sync_tables side size groups tables (leave_table side q)

-- the changes of each table, without the skipped keys
unfoldable pub group_changes :
    List String → Map (List ChangeLog) → List ChangeLog → Map (List ChangeLog)
group_changes skipped groups [] = groups
group_changes skipped groups (c ∷ cs) =
    group_changes skipped
      (if includes skipped (create_conflict_key c.table_name c.primary_key_values)
        then groups
        else put groups c.table_name (or_else (get groups c.table_name) [] ++ c ∷ []))
      cs

-- `Array.from(groups.keys())`
unfoldable pub group_tables : Map (List ChangeLog) → List String
group_tables [] = []
group_tables ((table, changes) ∷ groups) = table ∷ group_tables groups

-- one direction: group, order the tables, apply
unfoldable pub sync_side :
    Environment → Config → Origin → List String → List ChangeLog → Progress → Run
sync_side env config side skipped changes p =
    let groups = group_changes skipped [] changes in
    elim (get_tables_in_dependency_order (env.foreign_keys side) config.strict_table_ordering
      (group_tables groups)) [
        | strict_error ↦ failed p
        | ordered none ↦ stuck
        | ordered (some tables) ↦ sync_tables env side config.batch_size groups tables p
      ]

pub record Resolving : Type 0 where
  pub rows : List Conflict
  pub keys : List String
  pub resolved : ℕ

unfoldable pub is_manual : Resolution → Bool
is_manual manual = true
is_manual _ = false

-- the loop over the conflicts: every key goes into the skipped ones, whatever the resolution
unfoldable pub resolve_all : Environment → Strategy → List Conflict → Resolving → Result Resolving
resolve_all env strategy [] s = ok s
resolve_all env strategy (c ∷ cs) s = elim (resolve_conflict env.new_id s.rows env.now c strategy) [
  | error e ↦ error e
  | ok (rows, r) ↦ resolve_all env strategy cs (record {
    rows = rows;
    keys = add s.keys (create_conflict_key c.table_name c.primary_key_values);
    resolved = if is_manual r.resolution then s.resolved else s.resolved + 1;
  })
]

unfoldable pub nothing_done : SyncDb → Progress
nothing_done db = record {
  db = db;
  total_rows_synced = 0;
  tables_processed = 0;
  conflicts_detected = 0;
  conflicts_resolved = 0;
  validation_errors = 0;
}

unfoldable pub is_empty : List ChangeLog → Bool
is_empty [] = true
is_empty (c ∷ cs) = false

unfoldable pub conflicts_between :
    Environment → Config → List ChangeLog → List ChangeLog → List Conflict
unfolding is_empty
conflicts_between env config sources targets =
    if config.bidirectional && not (is_empty targets)
    then detect_conflicts env.now no_time sources targets
    else []

-- both directions, once the conflicts are resolved
unfoldable pub sync_both :
    Environment → Config → List String → List ChangeLog → List ChangeLog → Progress → Run
unfolding is_empty
sync_both env config skipped sources targets p =
    sync_side env config source skipped sources p >>= λ q.
    if config.bidirectional && not (is_empty targets)
    then sync_side env config target skipped targets q
    else finished q

-- the run, once the changes are fetched
unfoldable pub sync_fetched : Environment → Config → SyncDb → List ChangeLog → List ChangeLog → Run
unfolding nothing_done is_empty
sync_fetched env config db sources targets =
    let conflicts = conflicts_between env config sources targets in
    if is_empty sources && is_empty targets
    then finished (nothing_done db)
    else elim (resolve_all env config.conflict_strategy conflicts
        (record { rows = db.conflicts; keys = []; resolved = 0 })) [
          | error e ↦ failed (nothing_done db)
          | ok s ↦
              sync_both env config s.keys sources targets
                (record (nothing_done (record db { conflicts = s.rows })) {
                  conflicts_detected = length conflicts;
                  conflicts_resolved = s.resolved;
                })
        ]

unfoldable pub execute_incremental_sync : Environment → Config → SyncDb → Run
unfolding sync_fetched
execute_incremental_sync env config db =
    sync_fetched env config db (fetch env config.id source db.source_checkpoint db.logs)
      (if config.bidirectional then fetch env config.id target db.target_checkpoint db.logs else [])
