-- ===== src/Backups/Attempts.antt =====
-- The attempts of a backup job: addBackupJob of server/src/queue/backup.queue.ts asks the queue for
-- three, and an UnrecoverableError ends them.
use db_backup.Prelude.{ℕ, zero, suc, ◌+◌, Option, none, some, List}
use db_backup.Backups.{World}
use db_backup.Backups.Crypto.{Cipher}
use db_backup.Backups.Worker.{
  Outside, Failure, connection_missing, backup_failed, quota_exceeded, not_a_file, publish_failed,
  policy_failed, run_backup_job,
}

abbrev pub attempts : ℕ
attempts = 3

-- what follows a failure of an attempt: nothing, or the attempts that are left
abbrev pub after_failure : Failure → World × ℕ → World × ℕ → World × ℕ
after_failure quota_exceeded ended retried = ended
after_failure connection_missing ended retried = retried
after_failure backup_failed ended retried = retried
after_failure not_a_file ended retried = retried
after_failure publish_failed ended retried = retried
after_failure policy_failed ended retried = retried

-- the end of the k-th attempt
abbrev pub next : ℕ → World × Option Failure → World × ℕ → World × ℕ
next k (w, none) retried = (w, k + 1)
next k (w, some f) retried = after_failure f (w, k + 1) retried

module _ (cipher : Cipher) (hash : List ℕ → List ℕ) (outs : ℕ → Outside) where
  -- the attempts from the k-th on, and how many there were
  unfoldable pub run_attempts : ℕ → ℕ → World → World × ℕ
  run_attempts zero k w = (w, k)
  run_attempts (suc n) k w =
      let r = run_backup_job cipher hash (outs k) w in next k r (run_attempts n (k + 1) r.0)

  unfoldable pub process_backup_job : World → World × ℕ
  process_backup_job w = run_attempts attempts 0 w
