-- ===== src/Backups/Restore.antt =====
-- The job of createRestoreWorker in server/src/queue/restore.queue.ts, from the row of the backup to the
-- call of the engine. The messages of progress, the audit and the mails are left out.
use db_backup.Prelude.{
  String, ◌==◌, Bool, true, false, not, Option, none, some, List, if◌then◌else◌,
}
use db_backup.Storage.Retention.{completed}
use db_backup.Backups.{Entry, World}
use db_backup.Backups.Crypto.{Cipher}
use db_backup.Backups.Fetch.{Refusal, fetched, refused, ensure_local_backup_file}

pub record RestoreJobData : Type 0 where
  pub user_id : String
  pub target_connection_id : Option String
  pub target_database : Option String

pub data RestoreFailure : Type 0 where
  backup_not_found not_completed no_connection : RestoreFailure
  connection_not_found : String → RestoreFailure
  not_available : Refusal → RestoreFailure
  engine_failed : RestoreFailure

-- the connection and the file that the engine was given
pub data Restored : Type 0 where
  restored : (connection : String) → Entry → (database : Option String) → Restored
  restore_failed : RestoreFailure → Restored

-- `targetConnectionId || backup.connectionId`
abbrev pub chosen : Option String → Option String → Option String
chosen none own = own
chosen (some id) own = if id == "" then own else some id

abbrev pub is_completed_row : World → Bool
is_completed_row w = elim w.row.status [ completed ↦ true | _ ↦ false ]

module _ (cipher : Cipher) (in_temp : String → Bool) (owns : (user connection : String) → Bool)
    (restores : (connection : String) → Entry → Option String → Bool) where
  unfoldable pub restore_to : List String → RestoreJobData → String → World → Restored
  restore_to passphrases job connection w =
      elim (ensure_local_backup_file cipher in_temp passphrases w) [
        | refused r ↦ restore_failed (not_available r)
        | fetched e temporary disk ↦
            if restores connection e job.target_database
            then restored connection e job.target_database
            else restore_failed engine_failed
      ]

  unfoldable pub run_restore_job : List String → RestoreJobData → World → Restored
  run_restore_job passphrases job w =
      if not (w.row.user_id == job.user_id)
      then restore_failed backup_not_found
      else if not (is_completed_row w)
      then restore_failed not_completed
      else elim (chosen job.target_connection_id w.row.connection_id) [
        | none ↦ restore_failed no_connection
        | some connection ↦
            if connection == ""
            then restore_failed no_connection
            else if owns job.user_id connection
            then restore_to passphrases job connection w
            else restore_failed (connection_not_found connection)
      ]
