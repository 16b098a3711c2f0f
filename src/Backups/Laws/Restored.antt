-- ===== src/Backups/Laws/Restored.antt =====
-- What a restore job hands to the engine after a finished backup job.
use db_backup.Prelude.{
  ℕ, String, ◌≡◌, refl, ap, ◌∙◌, sym, subst, ◌⊎◌, inl, inr, Bool, true, false, ◌||◌, Option, none,
  some, List, [], ◌∷◌, ◌==◌, Map, get, remove, if◌then◌else◌, eq_iff, arith, Bool-cases,
}
use db_backup.Storage.Retention.{completed}
use db_backup.Backups.{Entry, file, World, ends_with, is_encrypted_name}
use db_backup.Backups.Crypto.{Cipher, same_bytes, is_encrypted_file, decrypt_backup_file}
use db_backup.Backups.Worker.{Dump, Outside, Failure, enc_path, run_backup_job}
use db_backup.Backups.Fetch.{
  Fetched, fetched, non_empty, try_passphrases, decrypt_with, maybe_decrypt, on_disk, fetch_remote,
  ensure_local_backup_file,
}
use db_backup.Backups.Restore.{RestoreJobData, restored, chosen, restore_to, run_restore_job}
use db_backup.Backups.Laws.Copies.{is_encrypted_name_enc}
use db_backup.Backups.Laws.Stored.{Available, KeptAs, Stored, Usable, run_backup_job-Stored}

-- The passphrase is among those that are tried, behind such as do not open what it opens.
abbrev pub Known : Cipher → String → List String → Type 0
Known cipher p [] = ⊥
Known cipher p (c ∷ cs) =
    (c ≡ p)
    ⊎ (((bytes plain : List ℕ)
          → decrypt_backup_file cipher p bytes ≡ some plain
          → decrypt_backup_file cipher c bytes ≡ none)
        × Known cipher p cs)

-- names of a dump that do not look like those of an encrypted one, nor like those of a row to come
abbrev pub IsPlainName : Dump → Type 0
IsPlainName d =
    (is_encrypted_name d.file_name ≡ false)
    × (is_encrypted_name d.file_path ≡ false)
    × ((d.file_path == "") ≡ false)
    × ((d.file_path == "pending") ≡ false)

-- the plaintext is answered
abbrev Gives : List ℕ → Fetched → Type 0
Gives plain f = (temporary : Bool) × (disk : Map Entry) × (f ≡ fetched (file plain) temporary disk)

name-ne :
    (text other : String)
    → is_encrypted_name text ≡ true
    → is_encrypted_name other ≡ false
    → (text == other) ≡ false
name-ne text other yes_it no_it = elim (Bool-cases (text == other)) [
  | inr differs ↦ differs
  | inl same ↦
      absurd (ground (arith, yes_it, no_it, ap is_encrypted_name ((eq_iff text other).0 same)))
]

module _ (cipher : Cipher) (in_temp : String → Bool) where
  decrypts-header :
      (p : String) (bytes plain : List ℕ)
      → decrypt_backup_file cipher p bytes ≡ some plain
      → is_encrypted_file bytes ≡ true
  unfolding decrypt_backup_file
  decrypts-header p bytes plain h = ground (arith, h)

  try_passphrases-Known :
      (p : String) (cs : List String) (bytes plain : List ℕ)
      → Known cipher p cs
      → decrypt_backup_file cipher p bytes ≡ some plain
      → try_passphrases cipher cs bytes ≡ some plain
  unfolding try_passphrases
  try_passphrases-Known p [] bytes plain known h = elim known [ ]
  try_passphrases-Known p (c ∷ cs) bytes plain (inl same) h = rw same (ground (arith, h))
  try_passphrases-Known p (c ∷ cs) bytes plain (inr (closed, known)) h =
      ground (arith, closed bytes plain h, try_passphrases-Known p cs bytes plain known h)

  decrypt_with-Known :
      (p : String) (cs : List String) (path : String) (bytes plain : List ℕ) (disk : Map Entry)
      → Known cipher p cs
      → decrypt_backup_file cipher p bytes ≡ some plain
      → Gives plain (decrypt_with cipher in_temp cs path bytes disk)
  unfolding decrypt_with
  decrypt_with-Known p [] path bytes plain disk known h = elim known [ ]
  decrypt_with-Known p (c ∷ cs) path bytes plain disk known h = (
    true,
    (if in_temp path then remove disk path else disk),
    ground (arith, try_passphrases-Known p (c ∷ cs) bytes plain known h),
  )

  maybe_decrypt-Known :
      (p : String) (cs : List String) (expected : Bool) (path : String) (bytes plain : List ℕ)
      (disk : Map Entry)
      → Known cipher p (non_empty cs)
      → decrypt_backup_file cipher p bytes ≡ some plain
      → Gives plain (maybe_decrypt cipher in_temp cs expected path (file bytes) disk)
  unfolding maybe_decrypt
  maybe_decrypt-Known p cs expected path bytes plain disk known h =
      rw (decrypts-header p bytes plain h)
        (decrypt_with-Known p (non_empty cs) path bytes plain disk known h)

module _ (cipher : Cipher) (in_temp : String → Bool) (out : Outside) (d : Dump) (plain : List ℕ)
    (named : IsPlainName d) (headerless : is_encrypted_file plain ≡ false) where
  -- a stored path is one that is looked up
  KeptAs-on_disk :
      (w : World) (bytes : List ℕ)
      → KeptAs cipher out d plain w.row.file_name w.row.file_path bytes
      → on_disk w ≡ get w.disk w.row.file_path
  unfolding is_encrypted_name ends_with
  KeptAs-on_disk w bytes (inl (name, path, same)) = rw path (ground (arith, named))
  KeptAs-on_disk w bytes (inr (p, on, name, path, opened)) =
      let encrypted = is_encrypted_name_enc d.file_path in
      let some_path : (enc_path d.file_path == "") ≡ false = name-ne _ "" encrypted refl in
      let settled : (enc_path d.file_path == "pending") ≡ false =
        name-ne _ "pending" encrypted refl in
      rw path (ground (arith, some_path, settled))

  -- both places give the plaintext of the bytes that are kept there
  module _ (passphrases : List String)
      (known : (p : String)
        → out.passphrase ≡ some p
        → Known cipher p (non_empty passphrases)) where
    ensure_local-Gives :
        (w : World) (bytes : List ℕ)
        → Available w bytes
        → KeptAs cipher out d plain w.row.file_name w.row.file_path bytes
        → Gives plain (ensure_local_backup_file cipher in_temp passphrases w)
    unfolding ensure_local_backup_file fetch_remote maybe_decrypt
    ensure_local-Gives w bytes (inl here) (inl (name, path, same)) =
        let looked : on_disk w ≡ some (file plain) =
          KeptAs-on_disk w bytes (inl (name, path, same)) ∙ (here ∙ ap (λ b. some (file b)) same) in
        let unexpected : (is_encrypted_name w.row.file_name || is_encrypted_name w.row.file_path)
            ≡ false =
          rw (name, path) (ground (arith, named)) in
        (false, w.disk, ground (arith, looked, headerless, unexpected))
    ensure_local-Gives w bytes (inr (key, gone, stored, remote, nonempty, there))
          (inl (name, path, same)) =
        let looked : on_disk w ≡ none = KeptAs-on_disk w bytes (inl (name, path, same)) ∙ gone in
        let unexpected : (is_encrypted_name w.row.file_name || is_encrypted_name w.row.file_path)
            ≡ false =
          rw (name, path) (ground (arith, named)) in
        (
          true,
          w.disk,
          ground (arith, looked, stored, remote, nonempty, there, same, headerless, unexpected),
        )
    ensure_local-Gives w bytes (inl here) (inr (p, on, name, path, opened)) =
        let looked : on_disk w ≡ some (file bytes) =
          KeptAs-on_disk w bytes (inr (p, on, name, path, opened)) ∙ here in
        let expected = is_encrypted_name w.row.file_name || is_encrypted_name w.row.file_path in
        let e : ensure_local_backup_file cipher in_temp passphrases w
            ≡ maybe_decrypt cipher in_temp passphrases expected w.row.file_path (file bytes)
                w.disk =
          ground (arith, looked, decrypts-header cipher in_temp p bytes plain opened) in
        subst (Gives plain) (sym e) (
          maybe_decrypt-Known cipher in_temp p passphrases expected w.row.file_path bytes plain
            w.disk (known p on) opened)
    ensure_local-Gives w bytes (inr (key, gone, stored, remote, nonempty, there))
          (inr (p, on, name, path, opened)) =
        let looked : on_disk w ≡ none =
          KeptAs-on_disk w bytes (inr (p, on, name, path, opened)) ∙ gone in
        let expected = is_encrypted_name w.row.file_name || is_encrypted_name w.row.file_path in
        let e : ensure_local_backup_file cipher in_temp passphrases w
            ≡ maybe_decrypt cipher in_temp passphrases expected "" (file bytes) w.disk =
          ground (arith, looked, stored, remote, nonempty, there) in
        subst (Gives plain) (sym e) (
          maybe_decrypt-Known cipher in_temp p passphrases expected "" bytes plain w.disk
            (known p on) opened)

  -- the steps of the restore job up to the engine
  restore-Gives :
      (owns : (user connection : String) → Bool)
      (restores : (connection : String) → Entry → Option String → Bool) (passphrases : List String)
      (job : RestoreJobData) (w : World) (connection : String)
      → Gives plain (ensure_local_backup_file cipher in_temp passphrases w)
      → w.row.status ≡ completed
      → w.row.user_id ≡ job.user_id
      → chosen job.target_connection_id w.row.connection_id ≡ some connection
      → (connection == "") ≡ false
      → owns job.user_id connection ≡ true
      → restores connection (file plain) job.target_database ≡ true
      → run_restore_job cipher in_temp owns restores passphrases job w
        ≡ restored connection (file plain) job.target_database
  unfolding run_restore_job restore_to
  restore-Gives owns restores passphrases job w connection (temporary, disk, e) done own target real
        owned works =
      ground (arith, e, done, own, eq_iff w.row.user_id job.user_id, target, real, owned, works)

-- A backup whose job finished is restored to what was dumped: if the row's owner asks for a restore to
-- a connection of his that the engine can restore to, the engine is given the very bytes of the dump,
-- whether the copy was kept in plaintext or encrypted, on the disk or in the remote storage, and
-- whatever the disk does during the encryption. The dump is a file that does not start like an encrypted
-- one nor is named like one, no other file has its hash, a remote storage has keys, and the passphrase
-- of the backup is among those that are tried, behind such as do not open what it opens.
pub run_backup_job-restored :
    (cipher : Cipher) (hash : List ℕ → List ℕ) (in_temp : String → Bool) (out : Outside) (d : Dump)
    (plain : List ℕ) (w w' : World) (owns : (user connection : String) → Bool)
    (restores : (connection : String) → Entry → Option String → Bool) (passphrases : List String)
    (job : RestoreJobData) (connection : String)
    → out.dumped ≡ some d
    → d.entry ≡ file plain
    → IsPlainName d
    → is_encrypted_file plain ≡ false
    → ((copy : List ℕ) → same_bytes (hash copy) (hash plain) ≡ true → copy ≡ plain)
    → Usable out
    → ((p : String) → out.passphrase ≡ some p → Known cipher p (non_empty passphrases))
    → run_backup_job cipher hash out w ≡ (w', none)
    → w'.row.user_id ≡ job.user_id
    → chosen job.target_connection_id w'.row.connection_id ≡ some connection
    → (connection == "") ≡ false
    → owns job.user_id connection ≡ true
    → restores connection (file plain) job.target_database ≡ true
    → run_restore_job cipher in_temp owns restores passphrases job w'
      ≡ restored connection (file plain) job.target_database
run_backup_job-restored cipher hash in_temp out d plain w w' owns restores passphrases job
      connection dumped is_file named headerless no_collision usable known ran own target real owned
      works =
    let (bytes, done, available, kept) =
      subst (λ (r : World × Option Failure). Stored cipher out d plain r.0) ran
        (run_backup_job-Stored cipher hash out d plain is_file no_collision usable w dumped
          (ap (λ (r : World × Option Failure). r.1) ran)) in
    restore-Gives cipher in_temp out d plain named headerless owns restores passphrases job w'
      connection
      (ensure_local-Gives cipher in_temp out d plain named headerless passphrases known w' bytes
        available kept)
      done own target real owned works
