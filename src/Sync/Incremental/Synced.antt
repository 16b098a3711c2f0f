-- ===== src/Sync/Incremental/Synced.antt =====
-- What a run of one direction commits: all of its changes, or a beginning of them.
use db_backup.Prelude.{
  ◌+◌, String, ◌≡◌, refl, sym, ◌∙◌, ap, Option, List, [], ◌++◌, arith, length, length-append,
  append-nil, append_assoc,
}
use db_backup.Sync.Values.{ChangeLog, Origin, source, target}
use db_backup.Sync.Incremental.{
  Progress, SyncDb, Run, finished, failed, stuck, ◌>>=◌, change_ids, mark, last_checkpoint, rows_of,
}
use db_backup.Sync.Incremental.Marks.{mark-nil, mark-changes, last_checkpoint-append}

abbrev pub checkpoint_of : Origin → SyncDb → Option String
checkpoint_of source db = db.source_checkpoint
checkpoint_of target db = db.target_checkpoint

abbrev pub other_side : Origin → Origin
other_side source = target
other_side target = source

-- From `p` to `q` exactly `applied` was committed on the side.
pub record Synced (side : Origin) (p q : Progress) (applied : List ChangeLog) : Type 0 where
  pub rows : rows_of side q.db ≡ rows_of side p.db ++ applied
  pub logs : q.db.logs ≡ mark (change_ids applied) p.db.logs
  pub checkpoint : checkpoint_of side q.db ≡ last_checkpoint (checkpoint_of side p.db) applied
  pub counted : q.total_rows_synced ≡ p.total_rows_synced + length applied
  pub other_rows : rows_of (other_side side) q.db ≡ rows_of (other_side side) p.db
  pub other_checkpoint : checkpoint_of (other_side side) q.db ≡ checkpoint_of (other_side side) p.db
  pub conflicts : q.db.conflicts ≡ p.db.conflicts

pub Synced-refl : (side : Origin) (p : Progress) → Synced side p p []
unfolding last_checkpoint
Synced-refl side p = record {
  rows = sym (append-nil (rows_of side p.db));
  logs = sym (mark-nil p.db.logs);
  checkpoint = refl;
  counted = omega arith;
  other_rows = refl;
  other_checkpoint = refl;
  conflicts = refl;
}

pub Synced-trans :
    (side : Origin) (p q r : Progress) (xs ys : List ChangeLog)
    → Synced side p q xs
    → Synced side q r ys
    → Synced side p r (xs ++ ys)
Synced-trans side p q r xs ys a b = record {
  rows = b.rows ∙ (ap (λ l. l ++ ys) a.rows ∙ append_assoc (rows_of side p.db) xs ys);
  logs = b.logs ∙ (ap (mark (change_ids ys)) a.logs ∙ mark-changes xs ys p.db.logs);
  checkpoint =
      b.checkpoint
      ∙ (ap (λ c. last_checkpoint c ys) a.checkpoint
          ∙ last_checkpoint-append (checkpoint_of side p.db) xs ys);
  counted = omega (arith, a.counted, b.counted, length-append xs ys);
  other_rows = b.other_rows ∙ a.other_rows;
  other_checkpoint = b.other_checkpoint ∙ a.other_checkpoint;
  conflicts = b.conflicts ∙ a.conflicts;
}

-- From `p` to `q` the changes `applied` were committed on the side, of which `marked` are marked, and
-- the checkpoint is that of `noted`.
pub record Partly (side : Origin) (p q : Progress) (applied marked noted : List ChangeLog)
    : Type 0 where
  pub rows : rows_of side q.db ≡ rows_of side p.db ++ applied
  pub logs : q.db.logs ≡ mark (change_ids marked) p.db.logs
  pub checkpoint : checkpoint_of side q.db ≡ last_checkpoint (checkpoint_of side p.db) noted
  pub other_rows : rows_of (other_side side) q.db ≡ rows_of (other_side side) p.db
  pub other_checkpoint : checkpoint_of (other_side side) q.db ≡ checkpoint_of (other_side side) p.db

-- The noted changes are a beginning of the marked ones, and these of the committed ones.
abbrev pub Lags : List ChangeLog → List ChangeLog → List ChangeLog → Type 0
Lags applied marked noted =
    (late later : List ChangeLog) × (applied ≡ marked ++ late) × (marked ≡ noted ++ later)

pub Lags-refl : (xs : List ChangeLog) → Lags xs xs xs
Lags-refl xs = ([], [], sym (append-nil xs), sym (append-nil xs))

Lags-after : (xs a m n : List ChangeLog) → Lags a m n → Lags (xs ++ a) (xs ++ m) (xs ++ n)
Lags-after xs a m n (late, later, e, f) = (
  late,
  later,
  ap (λ l. xs ++ l) e ∙ sym (append_assoc xs m late),
  ap (λ l. xs ++ l) f ∙ sym (append_assoc xs n later),
)

pub Synced-Partly :
    (side : Origin) (p q : Progress) (xs : List ChangeLog)
    → Synced side p q xs
    → Partly side p q xs xs xs
Synced-Partly side p q xs s = record {
  rows = s.rows;
  logs = s.logs;
  checkpoint = s.checkpoint;
  other_rows = s.other_rows;
  other_checkpoint = s.other_checkpoint;
}

Partly-after :
    (side : Origin) (p q r : Progress) (xs a m n : List ChangeLog)
    → Synced side p q xs
    → Partly side q r a m n
    → Partly side p r (xs ++ a) (xs ++ m) (xs ++ n)
Partly-after side p q r xs a m n s t = record {
  rows = t.rows ∙ (ap (λ l. l ++ a) s.rows ∙ append_assoc (rows_of side p.db) xs a);
  logs = t.logs ∙ (ap (mark (change_ids m)) s.logs ∙ mark-changes xs m p.db.logs);
  checkpoint =
      t.checkpoint
      ∙ (ap (λ c. last_checkpoint c n) s.checkpoint
          ∙ last_checkpoint-append (checkpoint_of side p.db) xs n);
  other_rows = t.other_rows ∙ s.other_rows;
  other_checkpoint = t.other_checkpoint ∙ s.other_checkpoint;
}

-- what a failure leaves of the changes: committed, of these marked, and of these noted
abbrev pub Left : Origin → Progress → List ChangeLog → Progress → Type 0
Left side p changes q =
    (applied marked noted rest : List ChangeLog) × (changes ≡ applied ++ rest)
    × Lags applied marked noted
    × Partly side p q applied marked noted

pub Left-nothing : (side : Origin) (p : Progress) (changes : List ChangeLog) → Left side p changes p
Left-nothing side p changes =
    ([], [], [], changes, refl, Lags-refl [], Synced-Partly side p p [] (Synced-refl side p))

-- The run commits the changes, all if it finishes, and else a beginning of them.
abbrev pub Outcome : Origin → Progress → List ChangeLog → Run → Type 0
Outcome side p changes (finished q) = Synced side p q changes
Outcome side p changes (failed q) = Left side p changes q
Outcome side p changes stuck = ⊥

Left-after :
    (side : Origin) (p q r : Progress) (xs ys : List ChangeLog)
    → Synced side p q xs
    → Left side q ys r
    → Left side p (xs ++ ys) r
Left-after side p q r xs ys s (applied, marked, noted, rest, split, lags, partly) = (
  xs ++ applied,
  xs ++ marked,
  xs ++ noted,
  rest,
  ap (λ l. xs ++ l) split ∙ sym (append_assoc xs applied rest),
  Lags-after xs applied marked noted lags,
  Partly-after side p q r xs applied marked noted s partly,
)

pub Outcome-bind :
    (side : Origin) (p : Progress) (xs ys : List ChangeLog) (m : Run) (k : Progress → Run)
    → Outcome side p xs m
    → ((q : Progress) → Outcome side q ys (k q))
    → Outcome side p (xs ++ ys) (m >>= k)
Outcome-bind side p xs ys (finished q) k a b = go (k q) (b q)
  where
    go : (r : Run) → Outcome side q ys r → Outcome side p (xs ++ ys) r
    go (finished r) c = Synced-trans side p q r xs ys a c
    go (failed r) c = Left-after side p q r xs ys a c
    go stuck c = c
Outcome-bind side p xs ys (failed q) k (applied, marked, noted, rest, split, lags, a) b = (
  applied,
  marked,
  noted,
  rest ++ ys,
  ap (λ l. l ++ ys) split ∙ append_assoc applied rest ys,
  lags,
  a,
)
Outcome-bind side p xs ys stuck k a b = absurd a

-- A note beside the tables and the count of rows changes nothing of this.
pub Outcome-from :
    (side : Origin) (p p' : Progress) (xs : List ChangeLog) (m : Run)
    → Synced side p p' []
    → Outcome side p' xs m
    → Outcome side p xs m
Outcome-from side p p' xs (finished q) a b = Synced-trans side p p' q [] xs a b
Outcome-from side p p' xs (failed q) a b = Left-after side p p' q [] xs a b
Outcome-from side p p' xs stuck a b = b
