-- ===== src/Tests/Backups.antt =====
-- A dump of three bytes that is encrypted at the second attempt, and a cipher that hides nothing.
use db_backup.Prelude.{
  ℕ, ◌≡◌, refl, ◌⊎◌, inl, ◌≤◌, String, true, false, ◌==◌, none, some, List, [], ◌∷◌, if◌then◌else◌,
  eqb, get, put, remove, arith,
}
use db_backup.Storage.Retention.{pending, completed, failed}
use db_backup.Storage.Quota.{assert_quota_allows_file, get_quota_usage, percent_of}
use db_backup.Backups.{file, directory, local_disk, World, is_encrypted_name, ends_with}
use db_backup.Backups.Crypto.{
  Cipher, same_bytes, is_encrypted_file, encrypt_backup_file, decrypt_backup_file,
  decrypt-encrypt_backup_file,
}
use db_backup.Backups.Worker.{
  Dump, Outside, publish_failed, check_copy, encrypt_once, encrypt_twice, encrypt_step, quota_step,
  upload_step, completed_row, running_row, after_step, finish_step, settle, run_steps,
  run_backup_job,
}
use db_backup.Backups.Attempts.{process_backup_job}
use db_backup.Backups.Restore.{RestoreJobData, restored, run_restore_job}
use db_backup.Backups.Laws.Stored.{Available, KeptAs}
use db_backup.Backups.Laws.Restored.{run_backup_job-restored}
use db_backup.Backups.Laws.Settled.{process_backup_job-settled, process_backup_job-over_quota}
use db_backup.Backups.Laws.Lost.{run_backup_job-lost}

abbrev sixteen : List ℕ
sixteen = 0 ∷ 0 ∷ 0 ∷ 0 ∷ 0 ∷ 0 ∷ 0 ∷ 0 ∷ 0 ∷ 0 ∷ 0 ∷ 0 ∷ 0 ∷ 0 ∷ 0 ∷ 0 ∷ []

abbrev twelve : List ℕ
twelve = 0 ∷ 0 ∷ 0 ∷ 0 ∷ 0 ∷ 0 ∷ 0 ∷ 0 ∷ 0 ∷ 0 ∷ 0 ∷ 0 ∷ []

abbrev open_cipher : Cipher
open_cipher = record {
  derive_key = λ passphrase salt. salt;
  seal = λ key iv plain. (plain, sixteen);
  unseal = λ key iv tag ciphertext. some ciphertext;
}

abbrev dump_bytes : List ℕ
dump_bytes = 1 ∷ 2 ∷ 3 ∷ []

decrypt-encrypt_backup_file_example :
    (is_encrypted_file (encrypt_backup_file open_cipher sixteen twelve "secret" dump_bytes) ≡ true)
    × (decrypt_backup_file open_cipher "secret"
          (encrypt_backup_file open_cipher sixteen twelve "secret" dump_bytes)
        ≡ some dump_bytes)
decrypt-encrypt_backup_file_example =
    decrypt-encrypt_backup_file open_cipher sixteen twelve dump_bytes "secret" refl refl
      (λ key iv plain. (refl, refl)) (λ key iv plain. refl)

abbrev the_dump : Dump
the_dump = record {
  file_name = "a.sql";
  file_path = "/b/a.sql";
  file_size = 3;
  entry = file dump_bytes;
}

abbrev calm : Outside
calm = record {
  has_connection = true;
  dumped = some the_dump;
  verify = λ e. record { valid = true; checksum = "c" };
  passphrase = some "secret";
  quota = none;
  others = [];
  upload = none;
  tarred = directory;
  publish_fails = false;
  failure_publish_fails = false;
  policy_fails = false;
  salt = λ n. sixteen;
  iv = λ n. twelve;
  written = λ n bytes. if eqb n 1 then none else some bytes;
  partial = λ n. none;
}

abbrev fresh : World
fresh = record {
  row = record {
    user_id = "u";
    connection_id = some "c";
    status = pending;
    progress = 0;
    file_name = "";
    file_path = "pending";
    file_size = 0;
    checksum = none;
    verified = false;
    storage_type = local_disk;
    storage_key = none;
    error = none;
  };
  disk = [];
  remote = [];
}

abbrev stored : World
stored = (run_backup_job open_cipher (λ x. x) calm fresh).0

stored_row :
    (stored.row.file_path ≡ "/b/a.sql.enc")
    × (stored.row.status ≡ completed)
    × (stored.row.user_id ≡ "u")
    × (stored.row.connection_id ≡ some "c")
unfolding run_backup_job run_steps quota_step assert_quota_allows_file get_quota_usage encrypt_step
    encrypt_twice encrypt_once check_copy encrypt_backup_file decrypt_backup_file is_encrypted_file
    finish_step upload_step after_step completed_row running_row settle put remove get
stored_row = (refl, refl, refl, refl)

same_bytes-eq : (xs ys : List ℕ) → same_bytes xs ys ≡ true → xs ≡ ys
same_bytes-eq [] [] h = refl
same_bytes-eq [] (y ∷ ys) h = cc
same_bytes-eq (x ∷ xs) [] h = cc
same_bytes-eq (x ∷ xs) (y ∷ ys) h = ground (arith, h, same_bytes-eq xs ys)

abbrev job : RestoreJobData
job = record { user_id = "u"; target_connection_id = none; target_database = some "t" }

ran : run_backup_job open_cipher (λ x. x) calm fresh ≡ (stored, none)
unfolding run_backup_job run_steps quota_step assert_quota_allows_file get_quota_usage encrypt_step
    encrypt_twice encrypt_once check_copy encrypt_backup_file decrypt_backup_file is_encrypted_file
    finish_step upload_step after_step completed_row running_row settle put remove get
ran = refl

plain_names :
    (is_encrypted_name "a.sql" ≡ false)
    × (is_encrypted_name "/b/a.sql" ≡ false)
    × (("/b/a.sql" == "") ≡ false)
    × (("/b/a.sql" == "pending") ≡ false)
unfolding is_encrypted_name ends_with
plain_names = (refl, refl, refl, refl)

no_header : is_encrypted_file dump_bytes ≡ false
unfolding is_encrypted_file
no_header = refl

only_passphrase : (p : String) → some "secret" ≡ some p → ("secret" ≡ p)
only_passphrase p e = ground (arith, e)

run_backup_job-restored_example :
    run_restore_job open_cipher
      (λ path. false)
      (λ user connection. true)
      (λ connection e name. true)
      ("secret" ∷ [])
      job
      stored
    ≡ restored "c" (file dump_bytes) (some "t")
run_backup_job-restored_example =
    run_backup_job-restored open_cipher (λ x. x) (λ path. false) calm the_dump dump_bytes fresh
      stored (λ user connection. true) (λ connection e name. true) ("secret" ∷ []) job "c" refl refl
      plain_names no_header (λ copy. same_bytes-eq copy dump_bytes)
      (λ r e. absurd (ground (arith, e))) (λ p e. inl (only_passphrase p e)) ran stored_row.2
      stored_row.3 refl refl refl

process_backup_job-settled_example :
    let (w', made) = process_backup_job open_cipher (λ x. x) (λ k. calm) fresh in
    ((w'.row.status ≡ completed) ⊎ (w'.row.status ≡ failed)) × (made ≤ 3)
process_backup_job-settled_example =
    process_backup_job-settled open_cipher (λ x. x) (λ k. calm) (λ k. refl) fresh

abbrev narrow : Outside
narrow = record calm { quota = some 2 }

over : assert_quota_allows_file [] "u" (some 2) 3 ≡ false
unfolding assert_quota_allows_file get_quota_usage percent_of
over = refl

process_backup_job-over_quota_example :
    let (w', made) = process_backup_job open_cipher (λ x. x) (λ k. narrow) fresh in
    (w'.row.status ≡ failed) × (get w'.disk "/b/a.sql" ≡ none) × (made ≡ 1)
process_backup_job-over_quota_example =
    process_backup_job-over_quota open_cipher (λ x. x) (λ k. narrow) the_dump fresh refl refl refl
      over refl

abbrev mute : Outside
mute = record calm { publish_fails = true }

fits : assert_quota_allows_file [] "u" none 3 ≡ true
unfolding assert_quota_allows_file get_quota_usage percent_of
fits = refl

run_backup_job-lost_example :
    let (w', ended) = run_backup_job open_cipher (λ x. x) mute fresh in
    (ended ≡ some publish_failed)
    × (w'.row.status ≡ failed)
    × ((bytes : List ℕ) × Available w' bytes
        × KeptAs open_cipher mute the_dump dump_bytes w'.row.file_name w'.row.file_path bytes)
run_backup_job-lost_example =
    run_backup_job-lost open_cipher (λ x. x) mute the_dump dump_bytes refl
      (λ copy. same_bytes-eq copy dump_bytes) (λ r e. absurd (ground (arith, e))) fresh refl refl
      fits refl
