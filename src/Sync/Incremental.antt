-- ===== src/Sync/Incremental.antt =====
-- executeIncrementalSync of server/src/queue/sync/handlers/incremental-sync.handler.ts. The sync
-- tables and the two databases are one state; what the databases answer is a record of parameters.
-- Of the progress, only that a report can fail is modelled.
pub mod Batches
pub mod Runs
mod Groups
mod Marks
pub mod Synced
pub mod Applied
pub mod Laws
mod Contested
mod Sides
pub mod Delivery
pub mod Refused
use Prim.Native.String
use db_backup.Prelude.{
  ℕ, zero, suc, ◌+◌, String, Bool, true, false, not, ◌&&◌, ◌||◌, Option, none, some, List, [], ◌∷◌,
  ◌++◌, map, if◌then◌else◌, ◌==◌, length, take, drop, select, count, includes, add, Map, get, put,
  or_else,
}
use db_backup.Sync.Values.{Row, ChangeLog, Origin, source, target}
use db_backup.Sync.Keys.{create_conflict_key}
use db_backup.Sync.TableOrder.{
  Dependency, Ordering, ordered, strict_error, get_tables_in_dependency_order,
}
use db_backup.Sync.Conflicts.{
  Strategy, Conflict, Resolution, manual, Resolved, Result, ok, error, detect_conflicts,
  resolve_conflict,
}
use db_backup.Sync.Validation.{validate_change}

pub record Config : Type 0 where
  pub id : String
  pub bidirectional : Bool
  pub conflict_strategy : Strategy
  pub batch_size : ℕ
  pub strict_table_ordering : Bool

-- the ChangeLog and Conflict tables, the SyncState row, and the changes that the source and the
-- target database have committed, in their order
pub record SyncDb : Type 0 where
  pub logs : List ChangeLog
  pub conflicts : List Conflict
  pub source_checkpoint : Option String
  pub target_checkpoint : Option String
  pub current_table : Option String
  pub source_rows : List ChangeLog
  pub target_rows : List ChangeLog

-- What is not the program's own: the order of checkpoints in the database, its sort by time, its
-- ids, the foreign keys that a database reports (or a failure), whether a database commits the
-- transaction of a batch, and whether the writes to the tables of the program succeed: the note of
-- the current table, and after a batch its marks, its checkpoint and the progress.
pub record Environment : Type 0 where
  pub gt : String → String → Bool
  pub by_timestamp : List ChangeLog → List ChangeLog
  pub new_id : List Conflict → String
  pub foreign_keys : Origin → Option (List Dependency)
  pub commits : Origin → List ChangeLog → String → List ChangeLog → Bool
  pub enters : String → Bool
  pub marks : Origin → List ChangeLog → String → List ChangeLog → Bool
  pub notes : Origin → List ChangeLog → String → List ChangeLog → Bool
  pub reports : List ChangeLog → String → List ChangeLog → Bool
  pub now : ℕ

pub record Progress : Type 0 where
  pub db : SyncDb
  pub total_rows_synced : ℕ
  pub tables_processed : ℕ
  pub conflicts_detected : ℕ
  pub conflicts_resolved : ℕ
  pub validation_errors : ℕ

-- `failed` carries the state in which an exception leaves the tables; `stuck` stands for a loop
-- that does not end.
pub data Run : Type 0 where
  finished : Progress → Run
  failed : Progress → Run
  stuck : Run

infixl 5 ◌>>=◌
abbrev pub ◌>>=◌ : Run → (Progress → Run) → Run
finished p >>= k = k p
failed p >>= k = failed p
stuck >>= k = stuck

abbrev pub is_valid : ChangeLog → Bool
is_valid c = (validate_change c.operation c.primary_key_values c.change_data).valid

abbrev pub is_origin : Origin → Origin → Bool
is_origin source source = true
is_origin target target = true
is_origin _ _ = false

-- `where` of the two queries: unsynchronized, of the side, and past the checkpoint if there is one
unfoldable pub is_pending : Environment → String → Origin → Option String → ChangeLog → Bool
is_pending env config side checkpoint log =
    let since = or_else checkpoint "" in
    log.sync_config_id == config
    && not log.synchronized
    && is_origin log.origin side
    && (if since == "" then true else env.gt log.checkpoint since)

-- the copies of the target's changes that are passed on have no timestamp
abbrev pub no_time : ChangeLog → Option ℕ
no_time log = none

unfoldable pub fetch :
    Environment → String → Origin → Option String → List ChangeLog → List ChangeLog
unfolding is_pending
fetch env config side checkpoint logs =
    env.by_timestamp (select (is_pending env config side checkpoint) logs)

-- `slice(i, i + batchSize)` for i = 0, batchSize, …, on fuel; `none` means that the fuel ran out
unfoldable pub batches {ℓ} : {A : Type ℓ} → ℕ → ℕ → List A → Option (List (List A))
batches zero size xs = none
batches (suc fuel) size [] = some []
batches (suc fuel) size (x ∷ xs) = elim (batches fuel size (drop size (x ∷ xs))) [
  | none ↦ none
  | some rest ↦ some (take size (x ∷ xs) ∷ rest)
]

abbrev pub change_ids : List ChangeLog → List String
change_ids = map (λ c. c.id)

-- `updateMany({ where: { id: { in: ids } }, data: { synchronized: true } })`
unfoldable pub mark : List String → List ChangeLog → List ChangeLog
mark ids [] = []
mark ids (log ∷ logs) =
    (if includes ids log.id then record log { synchronized = true } else log) ∷ mark ids logs

-- the checkpoint of the last change
unfoldable pub last_checkpoint : Option String → List ChangeLog → Option String
last_checkpoint checkpoint [] = checkpoint
last_checkpoint checkpoint (c ∷ cs) = last_checkpoint (some c.checkpoint) cs

-- A change of the source is applied to the target database, and the other way round.
abbrev pub rows_of : Origin → SyncDb → List ChangeLog
rows_of source db = db.target_rows
rows_of target db = db.source_rows

-- the three writes after one another: the rows, their marks, and the checkpoint of the last one
unfoldable pub add_rows : Origin → List ChangeLog → SyncDb → SyncDb
add_rows source valid db = record db { target_rows = db.target_rows ++ valid }
add_rows target valid db = record db { source_rows = db.source_rows ++ valid }

unfoldable pub mark_rows : List ChangeLog → SyncDb → SyncDb
unfolding mark
mark_rows valid db = record db { logs = mark (change_ids valid) db.logs }

unfoldable pub note_checkpoint : Origin → List ChangeLog → SyncDb → SyncDb
unfolding last_checkpoint
note_checkpoint source valid db = record db {
  source_checkpoint = last_checkpoint db.source_checkpoint valid;
}
note_checkpoint target valid db = record db {
  target_checkpoint = last_checkpoint db.target_checkpoint valid;
}
