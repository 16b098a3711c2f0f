-- ===== src/Sync/Incremental/Delivery.antt =====
-- The whole run: what it commits on either side, and that its tables agree with what it committed.
use db_backup.Prelude.{String, Bool, not, ◌&&◌, List, [], if◌then◌else◌, select}
use db_backup.Sync.Values.{ChangeLog, source, target}
use db_backup.Sync.Conflicts.{source, target}
use db_backup.Sync.Incremental.{
  Config, SyncDb, Environment, Progress, Run, is_valid, fetch, finished, failed, stuck,
}
use db_backup.Sync.Incremental.Synced.{Synced}
use db_backup.Sync.Incremental.Laws.{is_due, SameChanges}
use db_backup.Sync.Incremental.Contested.{is_contested}
use db_backup.Sync.Incremental.Sides.{Committed, Stopped}

-- what both directions commit
abbrev pub BothOutcome : List String → List ChangeLog → List ChangeLog → Progress → Run → Type 0
BothOutcome skipped sources targets p (finished q) =
    (xs ys : List ChangeLog) × Committed p.db q.db xs ys
    × SameChanges xs (select (is_due skipped) sources)
    × SameChanges ys (select (is_due skipped) targets)
BothOutcome skipped sources targets p (failed q) = Stopped p.db q.db
BothOutcome skipped sources targets p stuck = ⊥

-- valid, and changed on one side only
abbrev pub is_deliverable : List ChangeLog → List ChangeLog → ChangeLog → Bool
is_deliverable sources targets c = not (is_contested sources targets c) && is_valid c

abbrev pub Delivered : SyncDb → List ChangeLog → List ChangeLog → Run → Type 0
Delivered db sources targets (finished q) =
    (xs ys : List ChangeLog) × Committed db q.db xs ys
    × SameChanges xs (select (is_deliverable sources targets) sources)
    × SameChanges ys (select (is_deliverable sources targets) targets)
Delivered db sources targets (failed q) = Stopped db q.db
Delivered db sources targets stuck = ⊥

abbrev pub fetched_sources : Environment → Config → SyncDb → List ChangeLog
fetched_sources env config db = fetch env config.id source db.source_checkpoint db.logs

abbrev pub fetched_targets : Environment → Config → SyncDb → List ChangeLog
fetched_targets env config db =
    if config.bidirectional then fetch env config.id target db.target_checkpoint db.logs else []
