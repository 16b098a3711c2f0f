-- ===== src/Backups/Laws/Lost.antt =====
-- A job that fails after its copy was stored.
use db_backup.Prelude.{
  ℕ, ◌≡◌, refl, sym, subst, true, some, Option, List, get, put, get-put, eq_refl, arith,
}
use db_backup.Storage.Retention.{failed}
use db_backup.Storage.Quota.{assert_quota_allows_file}
use db_backup.Backups.{file, World}
use db_backup.Backups.Crypto.{Cipher, same_bytes}
use db_backup.Backups.Worker.{
  Dump, Verification, Outside, Failure, publish_failed, Step, went, thrown, encrypt_step,
  quota_step, upload_step, completed_row, after_step, finish_step, run_steps, running_row,
  failed_row, settle, run_backup_job,
}
use db_backup.Backups.Laws.Stored.{
  Surely, KeptAs, Available, Usable, Held, encrypt_step-Held, upload_step-Available,
}

module _ (cipher : Cipher) (hash : List ℕ → List ℕ) (out : Outside) (d : Dump) (plain : List ℕ)
    (is_file : d.entry ≡ file plain)
    (no_collision : (copy : List ℕ) → same_bytes (hash copy) (hash plain) ≡ true → copy ≡ plain)
    (usable : Usable out) where
  -- the failure after the copy was stored
  abbrev IsLost : World × Option Failure → Type 0
  IsLost (w, ended) =
      (ended ≡ some publish_failed)
      × (w.row.status ≡ failed)
      × ((bytes : List ℕ) × Available w bytes
          × KeptAs cipher out d plain w.row.file_name w.row.file_path bytes)

  after_step-fails :
      (w : World) → out.publish_fails ≡ true → after_step out w ≡ thrown w publish_failed
  unfolding after_step
  after_step-fails w fails = ground (arith, fails)

  finish_step-IsLost :
      (v : Verification) (s : Step Dump)
      → out.publish_fails ≡ true
      → Surely (Held cipher hash out d plain is_file no_collision usable) s
      → IsLost (settle out (finish_step out v s))
  unfolding settle finish_step completed_row failed_row
  finish_step-IsLost v (thrown w f) fails h = elim h [ ]
  finish_step-IsLost v (went w kept) fails (bytes, here, as_kept) =
      let (w2, stored) = upload_step out kept w in
      let w3 : World = record w2 { row = completed_row kept v stored w2.row } in
      let available =
        upload_step-Available cipher hash out d plain is_file no_collision usable w kept bytes v
          here in
      let e : after_step out w3 ≡ thrown w3 publish_failed = after_step-fails w3 fails in
      subst (λ s. IsLost (settle out s)) (sym e) (ground arith, refl, (bytes, available, as_kept))

  -- A backup whose copy was stored, in plaintext or encrypted, on the disk or in the remote storage,
  -- still ends in a failed row, and its job fails, if the message of its completion cannot be
  -- published. The dump is a file within the quota, no other file has its hash, and a remote storage
  -- has keys.
  pub run_backup_job-lost :
      (w : World)
      → out.has_connection ≡ true
      → out.dumped ≡ some d
      → assert_quota_allows_file out.others w.row.user_id out.quota d.file_size ≡ true
      → out.publish_fails ≡ true
      → let (w', ended) = run_backup_job cipher hash out w in
        (ended ≡ some publish_failed)
        × (w'.row.status ≡ failed)
        × ((bytes : List ℕ) × Available w' bytes
            × KeptAs cipher out d plain w'.row.file_name w'.row.file_path bytes)
  unfolding run_backup_job run_steps quota_step running_row
  run_backup_job-lost w found dumped fits fails =
      let w1 : World = record w { row = running_row w.row } in
      let w0 : World = record w1 { disk = put w.disk d.file_path d.entry } in
      let here : get w0.disk d.file_path ≡ some (file plain) =
        ground
          (arith, is_file, get-put w.disk d.file_path d.file_path d.entry, eq_refl d.file_path) in
      let e : run_backup_job cipher hash out w
          ≡ settle out (finish_step out (out.verify d.entry) (encrypt_step cipher hash out d w0)) =
        ground (arith, found, dumped, fits) in
      subst IsLost (sym e) (
        finish_step-IsLost (out.verify d.entry) _ fails
          (encrypt_step-Held cipher hash out d plain is_file no_collision usable w0 here))
