-- ===== src/Sync/Incremental/Marks.antt =====
-- Marking by id, in one step or in several, and the checkpoint that follows the last change.
use db_backup.Prelude.{String, ◌≡◌, refl, Option, some, List, [], ◌∷◌, ◌++◌, arith, includes-append}
use db_backup.Sync.Values.{ChangeLog}
use db_backup.Sync.Incremental.{change_ids, mark, last_checkpoint}

pub change_ids-append :
    (xs ys : List ChangeLog) → change_ids (xs ++ ys) ≡ change_ids xs ++ change_ids ys
change_ids-append [] ys = refl
change_ids-append (x ∷ xs) ys = ground (arith, change_ids-append xs ys)

pub mark-nil : (logs : List ChangeLog) → mark [] logs ≡ logs
unfolding mark
mark-nil [] = refl
mark-nil (log ∷ logs) = ground (arith, mark-nil logs)

mark-append :
    (xs ys : List String) (logs : List ChangeLog) → mark ys (mark xs logs) ≡ mark (xs ++ ys) logs
unfolding mark
mark-append xs ys [] = refl
mark-append xs ys (log ∷ logs) =
    ground (arith, mark-append xs ys logs, includes-append xs ys log.id)

pub mark-changes :
    (xs ys logs : List ChangeLog)
    → mark (change_ids ys) (mark (change_ids xs) logs) ≡ mark (change_ids (xs ++ ys)) logs
mark-changes xs ys logs = rw change_ids-append (mark-append (change_ids xs) (change_ids ys) logs)

pub last_checkpoint-append :
    (c : Option String) (xs ys : List ChangeLog)
    → last_checkpoint (last_checkpoint c xs) ys ≡ last_checkpoint c (xs ++ ys)
unfolding last_checkpoint
last_checkpoint-append c [] ys = refl
last_checkpoint-append c (x ∷ xs) ys = last_checkpoint-append (some x.checkpoint) xs ys
