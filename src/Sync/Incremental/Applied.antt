-- ===== src/Sync/Incremental/Applied.antt =====
-- What one direction leaves behind, finished or not: a beginning of the valid changes, in their
-- order, is committed, a beginning of these marked, and the checkpoint is that of a beginning of the
-- marked ones; without a failure these are one list.
use db_backup.Sync.Incremental.Marks.{mark-nil}
use db_backup.Prelude.{
  Bool, true, false, not, ◌&&◌, some, sym, append-nil, if◌then◌else◌, ℕ, suc, ◌+◌, ◌<◌, String,
  refl, subst, List, [], ◌∷◌, ◌++◌, arith, length, select, select-append, concat, Map, get, or_else,
}
use db_backup.Sync.Values.{ChangeLog, Origin, source, target}
use db_backup.Sync.Incremental.{
  Environment, Progress, Run, ◌>>=◌, is_valid, is_origin, rows_of, last_checkpoint, add_rows,
  mark_rows, note_checkpoint,
}
use db_backup.Sync.Incremental.Runs.{
  sync_valid, sync_batch, sync_batches, sync_changes, enter_table, leave_table, sync_tables,
}
use db_backup.Sync.Incremental.Batches.{batches_total}
use db_backup.Sync.Incremental.Synced.{
  Synced, Synced-refl, Partly, Lags-refl, Synced-Partly, Left-nothing, Outcome, Outcome-bind,
  Outcome-from,
}

if-Outcome :
    (side : Origin) (p : Progress) (xs : List ChangeLog) (b : Bool) (m n : Run)
    → Outcome side p xs m
    → Outcome side p xs n
    → Outcome side p xs (if b then m else n)
if-Outcome side p xs true m n h k = h
if-Outcome side p xs false m n h k = k

module _ (env : Environment) where
  -- the state after the first `n` of the three writes
  batch-Partly :
      (side : Origin) (p : Progress) (valid : List ChangeLog)
      → Partly side p (record p { db = add_rows side valid p.db }) valid [] []
  unfolding add_rows last_checkpoint
  batch-Partly source p valid = record {
    rows = refl;
    logs = sym (mark-nil p.db.logs);
    checkpoint = refl;
    other_rows = refl;
    other_checkpoint = refl;
  }
  batch-Partly target p valid = record {
    rows = refl;
    logs = sym (mark-nil p.db.logs);
    checkpoint = refl;
    other_rows = refl;
    other_checkpoint = refl;
  }

  marked-Partly :
      (side : Origin) (p : Progress) (valid : List ChangeLog)
      → Partly side p (record p { db = mark_rows valid (add_rows side valid p.db) }) valid valid []
  unfolding add_rows mark_rows last_checkpoint
  marked-Partly source p valid = record {
    rows = refl;
    logs = refl;
    checkpoint = refl;
    other_rows = refl;
    other_checkpoint = refl;
  }
  marked-Partly target p valid = record {
    rows = refl;
    logs = refl;
    checkpoint = refl;
    other_rows = refl;
    other_checkpoint = refl;
  }

  commit-Synced :
      (side : Origin) (p : Progress) (valid : List ChangeLog)
      → Synced side p
          (record p {
            db = note_checkpoint side valid (mark_rows valid (add_rows side valid p.db));
            total_rows_synced = p.total_rows_synced + length valid;
          })
          valid
  unfolding add_rows mark_rows note_checkpoint
  commit-Synced source p valid = record {
    rows = refl;
    logs = refl;
    checkpoint = refl;
    counted = refl;
    other_rows = refl;
    other_checkpoint = refl;
    conflicts = refl;
  }
  commit-Synced target p valid = record {
    rows = refl;
    logs = refl;
    checkpoint = refl;
    counted = refl;
    other_rows = refl;
    other_checkpoint = refl;
    conflicts = refl;
  }

  sync_valid-Outcome :
      (side : Origin) (table : String) (valid : List ChangeLog) (p : Progress)
      → Outcome side p valid (sync_valid env side table valid p)
  unfolding sync_valid
  sync_valid-Outcome side table [] p = Synced-refl side p
  sync_valid-Outcome side table (c ∷ cs) p =
      let v = c ∷ cs in
      let rows = rows_of side p.db in
      let all = commit-Synced side p v in
      if-Outcome side p v (not (env.commits side rows table v)) _ _ (Left-nothing side p v) (
        if-Outcome side p v (not (env.marks side rows table v)) _ _
          (v, [], [], [], sym (append-nil v), (v, [], refl, refl), batch-Partly side p v)
          (if-Outcome side p v (not (env.notes side rows table v)) _ _
            (
              v,
              v,
              [],
              [],
              sym (append-nil v),
              ([], v, sym (append-nil v), refl),
              marked-Partly side p v,
            )
            (if-Outcome side p v (is_origin side source && not (env.reports rows table v)) _ _
              (v, v, v, [], sym (append-nil v), Lags-refl v, Synced-Partly side p _ v all) all)))

  errors-Synced :
      (side : Origin) (p : Progress) (n : ℕ) → Synced side p (record p { validation_errors = n }) []
  errors-Synced source p n =
      let h = Synced-refl source p in
      record {
        rows = h.rows;
        logs = h.logs;
        checkpoint = h.checkpoint;
        counted = h.counted;
        other_rows = refl;
        other_checkpoint = refl;
        conflicts = refl;
      }
  errors-Synced target p n =
      let h = Synced-refl target p in
      record {
        rows = h.rows;
        logs = h.logs;
        checkpoint = h.checkpoint;
        counted = h.counted;
        other_rows = refl;
        other_checkpoint = refl;
        conflicts = refl;
      }

  sync_batch-Outcome :
      (side : Origin) (table : String) (batch : List ChangeLog) (p : Progress)
      → Outcome side p (select is_valid batch) (sync_batch env side table batch p)
  unfolding sync_batch
  sync_batch-Outcome side table batch p =
      Outcome-from side p _ (select is_valid batch) _ (errors-Synced side p _)
        (sync_valid-Outcome side table (select is_valid batch) _)

  sync_batches-Outcome :
      (side : Origin) (table : String) (bs : List (List ChangeLog)) (p : Progress)
      → Outcome side p (select is_valid (concat bs)) (sync_batches env side table bs p)
  unfolding sync_batches
  sync_batches-Outcome side table [] p = Synced-refl side p
  sync_batches-Outcome side table (batch ∷ bs) p = rw select-append (
      Outcome-bind side p (select is_valid batch) (select is_valid (concat bs))
        (sync_batch env side table batch p) (sync_batches env side table bs)
        (sync_batch-Outcome side table batch p) (sync_batches-Outcome side table bs))

  sync_changes-Outcome :
      (side : Origin) (table : String) (size : ℕ) (changes : List ChangeLog) (p : Progress)
      → 0 < size
      → Outcome side p (select is_valid changes) (sync_changes env side table size changes p)
  unfolding sync_changes
  sync_changes-Outcome side table size changes p pos =
      let (bs, ran, whole) = batches_total (suc (length changes)) size changes pos (omega arith) in
      rw (ran, sync_changes)
        (subst (λ l. Outcome side p (select is_valid l) (sync_batches env side table bs p)) whole
          (sync_batches-Outcome side table bs p))

  -- the valid changes of the tables, table by table
  abbrev pub table_changes : Map (List ChangeLog) → List String → List ChangeLog
  table_changes groups [] = []
  table_changes groups (t ∷ ts) =
      select is_valid (or_else (get groups t) []) ++ table_changes groups ts

  entered-Synced :
      (table : String) (p : Progress)
      → Synced source p (record p { db = record p.db { current_table = some table } }) []
  entered-Synced table p =
      let h = Synced-refl source p in
      record {
        rows = h.rows;
        logs = h.logs;
        checkpoint = h.checkpoint;
        counted = h.counted;
        other_rows = refl;
        other_checkpoint = refl;
        conflicts = refl;
      }

  enter_table-Outcome :
      (side : Origin) (table : String) (p : Progress)
      → Outcome side p [] (enter_table env side table p)
  unfolding enter_table
  enter_table-Outcome source table p =
      if-Outcome source p [] (env.enters table) _ _ (entered-Synced table p)
        (Left-nothing source p [])
  enter_table-Outcome target table p = Synced-refl target p

  leave-Synced : (side : Origin) (p : Progress) → Synced side p (leave_table env side p) []
  unfolding leave_table
  leave-Synced source p =
      let h = Synced-refl source p in
      record {
        rows = h.rows;
        logs = h.logs;
        checkpoint = h.checkpoint;
        counted = h.counted;
        other_rows = refl;
        other_checkpoint = refl;
        conflicts = refl;
      }
  leave-Synced target p = Synced-refl target p

  pub sync_tables-Outcome :
      (side : Origin) (size : ℕ) (groups : Map (List ChangeLog)) (tables : List String)
      (p : Progress)
      → 0 < size
      → Outcome side p (table_changes groups tables) (sync_tables env side size groups tables p)
  unfolding sync_tables
  sync_tables-Outcome side size groups [] p pos = Synced-refl side p
  sync_tables-Outcome side size groups (t ∷ ts) p pos =
      Outcome-bind side p (select is_valid (or_else (get groups t) [])) (table_changes groups ts)
        (enter_table env side t p >>= sync_changes env side t size (or_else (get groups t) [])) _
        (Outcome-bind side p [] (select is_valid (or_else (get groups t) []))
          (enter_table env side t p) (sync_changes env side t size (or_else (get groups t) []))
          (enter_table-Outcome side t p)
          (λ q. sync_changes-Outcome side t size (or_else (get groups t) []) q pos))
        (λ q.
          Outcome-from side q _ (table_changes groups ts) _ (leave-Synced side q)
            (sync_tables-Outcome side size groups ts (leave_table env side q) pos))
