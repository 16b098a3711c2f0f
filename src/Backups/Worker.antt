-- ===== src/Backups/Worker.antt =====
-- The job of createBackupWorker in server/src/queue/backup.queue.ts. What the dump, the disk, the
-- remote storage and the messages of one attempt come to is given with the attempt; messages of
-- progress while the dump runs, mails and the files of a dump that fails are left out, and the retention that the job starts runs on
-- its own.
use db_backup.Prelude.{
  ℕ, String, ◌==◌, Bool, true, false, not, ◌&&◌, ◌||◌, Option, none, some, List, [], if◌then◌else◌,
  Map, get, put, remove,
}
use db_backup.Sync.Values.{◌<>◌}
use db_backup.Storage.Retention.{Backup, running, completed, failed}
use db_backup.Storage.Quota.{assert_quota_allows_file}
use db_backup.Backups.{Entry, file, directory, StorageType, local_disk, BackupRow, World}
use db_backup.Backups.Crypto.{Cipher, same_bytes, encrypt_backup_file, decrypt_backup_file}

-- what engine.backup answers, with what it leaves at the path
pub record Dump : Type 0 where
  pub file_name : String
  pub file_path : String
  pub file_size : ℕ
  pub entry : Entry

pub record Verification : Type 0 where
  pub valid : Bool
  pub checksum : String

-- an upload that succeeds: the key and whether the local copy is deleted
pub record Remote : Type 0 where
  pub provider : StorageType
  pub key_of : String → String
  pub delete_local : Bool

-- what the service around one attempt does
pub record Outside : Type 0 where
  pub has_connection : Bool
  pub dumped : Option Dump
  pub verify : Entry → Verification
  pub passphrase : Option String
  pub quota : Option ℕ
  pub others : List Backup
  pub upload : Option Remote
  pub tarred : Entry
  pub publish_fails : Bool
  pub failure_publish_fails : Bool
  pub policy_fails : Bool
  -- of the encryption: the random bytes, what the disk keeps of what is written (`none` if writing
  -- fails), and what a decryption that fails leaves of the copy
  pub salt : ℕ → List ℕ
  pub iv : ℕ → List ℕ
  pub written : ℕ → List ℕ → Option (List ℕ)
  pub partial : ℕ → Option (List ℕ)

-- why a job fails; only the quota stops the retries
pub data Failure : Type 0 where
  connection_missing backup_failed quota_exceeded not_a_file publish_failed policy_failed : Failure

abbrev pub message_of : Failure → String
message_of connection_missing = "Connection not found"
message_of backup_failed = "Backup failed"
message_of quota_exceeded = "Storage quota exceeded"
message_of not_a_file = "EISDIR"
message_of publish_failed = "Publish failed"
message_of policy_failed = "Policy failed"

pub data Step (A : Type 0) : Type 0 where
  went : World → A → Step A
  thrown : World → Failure → Step A

abbrev pub enc_path : String → String
enc_path path = path <> ".enc"

abbrev pub verify_path : String → String
verify_path path = path <> ".enc" <> ".verify"

module _ (cipher : Cipher) (hash : List ℕ → List ℕ) where
  -- the copy that is decrypted back, compared with the dump by its hash
  unfoldable pub check_copy :
      Outside → ℕ → String → String → List ℕ → List ℕ → Map Entry → Bool × Map Entry
  check_copy out n passphrase path plain enc disk =
      elim (decrypt_backup_file cipher passphrase enc) [
        | some copy ↦
            if same_bytes (hash copy) (hash plain)
            then (true, remove disk (verify_path path))
            else (false, remove (remove disk (verify_path path)) (enc_path path))
        | none ↦ elim (out.partial n) [
          | none ↦ (false, remove disk (enc_path path))
          | some left ↦ (false, remove (put disk (verify_path path) (file left)) (enc_path path))
        ]
      ]

  -- one attempt to encrypt
  unfoldable pub encrypt_once :
      Outside → ℕ → String → String → List ℕ → Map Entry → Bool × Map Entry
  encrypt_once out n passphrase path plain disk =
      let bytes = encrypt_backup_file cipher (out.salt n) (out.iv n) passphrase plain in
      elim (out.written n bytes) [
        | none ↦ (false, remove disk (enc_path path))
        | some enc ↦
            check_copy out n passphrase path plain enc (put disk (enc_path path) (file enc))
      ]

  -- the loop over at most two attempts
  unfoldable pub encrypt_twice : Outside → String → String → List ℕ → Map Entry → Bool × Map Entry
  encrypt_twice out passphrase path plain disk =
      let (ok, disk') = encrypt_once out 1 passphrase path plain disk in
      if ok then (true, disk') else encrypt_once out 2 passphrase path plain disk'

  -- the dump that is kept, and its name: the encrypted copy, or the plaintext if both attempts failed
  unfoldable pub encrypt_step : Outside → Dump → World → Step Dump
  encrypt_step out d w = if w.row.user_id == "" then went w d else elim out.passphrase [
    | none ↦ went w d
    | some passphrase ↦ elim d.entry [
      | directory ↦ thrown w not_a_file
      | file plain ↦
          let (ok, disk) = encrypt_twice out passphrase d.file_path plain w.disk in
          if ok
          then went (record w { disk = remove disk d.file_path })
              (record d { file_path = enc_path d.file_path; file_name = d.file_name <> ".enc" })
          else went (record w { disk = disk }) d
    ]
  ]

-- the quota, on the size of the dump
unfoldable pub quota_step : Outside → Dump → World → Step Dump
quota_step out d w =
    if w.row.user_id == ""
      || assert_quota_allows_file out.others w.row.user_id out.quota d.file_size
    then went w d
    else thrown (record w { disk = remove w.disk d.file_path }) quota_exceeded

-- a directory is uploaded as an archive of it
unfoldable pub uploaded_entry : Outside → Entry → Entry
uploaded_entry out (file bytes) = file bytes
uploaded_entry out directory = out.tarred

abbrev pub or_empty : Option Entry → Entry
or_empty none = file []
or_empty (some e) = e

-- an upload that fails keeps the local copy
unfoldable pub upload_step : Outside → Dump → World → World × (StorageType × Option String)
upload_step out d w = if w.row.user_id == "" then (w, (local_disk, none)) else elim out.upload [
  | none ↦ (w, (local_disk, none))
  | some r ↦
      let key = r.key_of d.file_name in
      let remote = put w.remote key (uploaded_entry out (or_empty (get w.disk d.file_path))) in
      let disk = if r.delete_local then remove w.disk d.file_path else w.disk in
      (record w { disk = disk; remote = remote }, (r.provider, some key))
]

-- the update of the row when everything is stored; the error of an earlier attempt stays
unfoldable pub completed_row :
    Dump → Verification → StorageType × Option String → BackupRow → BackupRow
completed_row d v (storage_type, storage_key) row = record row {
  status = completed;
  file_name = d.file_name;
  file_path = d.file_path;
  file_size = d.file_size;
  progress = 100;
  checksum = if v.checksum == "" then none else some v.checksum;
  verified = v.valid;
  storage_type = storage_type;
  storage_key = storage_key;
}

unfoldable pub running_row : BackupRow → BackupRow
running_row row = record row { status = running; progress = 0 }

unfoldable pub failed_row : Failure → BackupRow → BackupRow
failed_row f row = record row { status = failed; error = some (message_of f) }

-- what follows the completion: the message, and the policy of the retention
unfoldable pub after_step : Outside → World → Step Unit
after_step out w =
    if out.publish_fails
    then thrown w publish_failed
    else if not (w.row.user_id == "") && out.policy_fails
    then thrown w policy_failed
    else went w tt

-- from the upload on
unfoldable pub finish_step : Outside → Verification → Step Dump → Step Unit
finish_step out v (thrown w f) = thrown w f
finish_step out v (went w kept) =
    let (w2, stored) = upload_step out kept w in
    after_step out (record w2 { row = completed_row kept v stored w2.row })

-- The `catch`, and how the job ended for the queue: if the message of the failure cannot be published
-- either, that error takes the place of the one that was caught.
unfoldable pub settle : Outside → Step Unit → World × Option Failure
settle out (went w done) = (w, none)
settle out (thrown w f) =
    let ended = if out.failure_publish_fails then publish_failed else f in
    (record w { row = failed_row f w.row }, some ended)

module _ (cipher : Cipher) (hash : List ℕ → List ℕ) where
  -- the body of the `try`
  unfoldable pub run_steps : Outside → World → Step Unit
  run_steps out w = elim out.dumped [
    | none ↦ thrown w backup_failed
    | some d ↦ elim (quota_step out d (record w { disk = put w.disk d.file_path d.entry })) [
      | thrown w1 f ↦ thrown w1 f
      | went w1 d1 ↦ finish_step out (out.verify d1.entry) (encrypt_step cipher hash out d1 w1)
    ]
  ]

  unfoldable pub run_backup_job : Outside → World → World × Option Failure
  run_backup_job out w =
      if out.has_connection
      then settle out (run_steps out (record w { row = running_row w.row }))
      else (w, some connection_missing)
