-- ===== src/Sync/Incremental/Sides.antt =====
-- What the tables hold after one direction of a run, and after both.
use db_backup.Prelude.{◌≡◌, refl, sym, ap, ◌∙◌, ◌⊎◌, inl, inr, List, [], ◌++◌, append-nil}
use db_backup.Sync.Values.{ChangeLog, source, target}
use db_backup.Sync.Conflicts.{source, target}
use db_backup.Sync.Incremental.{
  SyncDb, Progress, Run, change_ids, mark, last_checkpoint, finished, failed,
}
use db_backup.Sync.Incremental.Marks.{mark-changes}
use db_backup.Sync.Incremental.Synced.{Synced, Partly, Lags, Lags-refl}

-- Against `db`, the tables of `after` hold exactly the changes committed on either side: the rows of
-- the two databases, the marks in the change log and the two checkpoints.
pub record Committed (db after : SyncDb) (to_target to_source : List ChangeLog) : Type 0 where
  pub target_rows : after.target_rows ≡ db.target_rows ++ to_target
  pub source_rows : after.source_rows ≡ db.source_rows ++ to_source
  pub logs : after.logs ≡ mark (change_ids (to_target ++ to_source)) db.logs
  pub source_checkpoint : after.source_checkpoint ≡ last_checkpoint db.source_checkpoint to_target
  pub target_checkpoint : after.target_checkpoint ≡ last_checkpoint db.target_checkpoint to_source

-- Against `db`, the tables of `after` where a run stopped: on each side the committed changes, of
-- which a beginning is marked, of which a beginning is behind the checkpoint.
pub record Stopped (db after : SyncDb) : Type 0 where
  pub to_target : List ChangeLog
  pub to_source : List ChangeLog
  pub marked : List ChangeLog
  pub marked_back : List ChangeLog
  pub noted : List ChangeLog
  pub noted_back : List ChangeLog
  pub target_rows : after.target_rows ≡ db.target_rows ++ to_target
  pub source_rows : after.source_rows ≡ db.source_rows ++ to_source
  pub logs : after.logs ≡ mark (change_ids (marked ++ marked_back)) db.logs
  pub source_checkpoint : after.source_checkpoint ≡ last_checkpoint db.source_checkpoint noted
  pub target_checkpoint : after.target_checkpoint ≡ last_checkpoint db.target_checkpoint noted_back
  pub lags : Lags to_target marked noted
  pub lags_back : Lags to_source marked_back noted_back
  -- nothing goes back before all that goes forth is done
  pub order : (to_source ≡ []) ⊎ (marked ≡ to_target) × (noted ≡ to_target)

-- the state that a run ends in
abbrev pub Ends : Run → Progress → Type 0
Ends m q = (m ≡ finished q) ⊎ (m ≡ failed q)

pub from_source :
    (p q : Progress) (xs : List ChangeLog) → Synced source p q xs → Committed p.db q.db xs []
unfolding last_checkpoint
from_source p q xs s = record {
  target_rows = s.rows;
  source_rows = s.other_rows ∙ sym (append-nil p.db.source_rows);
  logs = rw append-nil s.logs;
  source_checkpoint = s.checkpoint;
  target_checkpoint = s.other_checkpoint;
}

pub source-Stopped :
    (p q : Progress) (a m n : List ChangeLog)
    → Lags a m n
    → Partly source p q a m n
    → Stopped p.db q.db
unfolding last_checkpoint
source-Stopped p q a m n lags s = record {
  to_target = a;
  to_source = [];
  marked = m;
  marked_back = [];
  noted = n;
  noted_back = [];
  target_rows = s.rows;
  source_rows = s.other_rows ∙ sym (append-nil p.db.source_rows);
  logs = rw append-nil s.logs;
  source_checkpoint = s.checkpoint;
  target_checkpoint = s.other_checkpoint;
  lags = lags;
  lags_back = Lags-refl [];
  order = inl refl;
}

pub target-Stopped :
    (p q r : Progress) (xs a m n : List ChangeLog)
    → Synced source p q xs
    → Lags a m n
    → Partly target q r a m n
    → Stopped p.db r.db
target-Stopped p q r xs a m n s lags b = record {
  to_target = xs;
  to_source = a;
  marked = xs;
  marked_back = m;
  noted = xs;
  noted_back = n;
  target_rows = b.other_rows ∙ s.rows;
  source_rows = b.rows ∙ ap (λ l. l ++ a) s.other_rows;
  logs = b.logs ∙ (ap (mark (change_ids m)) s.logs ∙ mark-changes xs m p.db.logs);
  source_checkpoint = b.other_checkpoint ∙ s.checkpoint;
  target_checkpoint = b.checkpoint ∙ ap (λ c. last_checkpoint c n) s.other_checkpoint;
  lags = Lags-refl xs;
  lags_back = lags;
  order = inr (refl, refl);
}

pub then_target :
    (p q r : Progress) (xs ys : List ChangeLog)
    → Synced source p q xs
    → Synced target q r ys
    → Committed p.db r.db xs ys
then_target p q r xs ys a b = record {
  target_rows = b.other_rows ∙ a.rows;
  source_rows = b.rows ∙ ap (λ l. l ++ ys) a.other_rows;
  logs = b.logs ∙ (ap (mark (change_ids ys)) a.logs ∙ mark-changes xs ys p.db.logs);
  source_checkpoint = b.other_checkpoint ∙ a.checkpoint;
  target_checkpoint = b.checkpoint ∙ ap (λ c. last_checkpoint c ys) a.other_checkpoint;
}
