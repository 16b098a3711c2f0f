-- ===== src/Backups/Fetch.antt =====
-- ensureLocalBackupFile of server/src/services/storage.service.ts: the plaintext of a backup, from
-- the disk or from the remote storage, decrypted if it is encrypted. The directory for temporary
-- files is fresh each time; of what is put there only the file that is answered is kept. Passphrases
-- stand for their decrypted texts.
use db_backup.Prelude.{
  ℕ, String, ◌==◌, Bool, true, false, not, ◌||◌, Option, none, some, List, [], ◌∷◌, if◌then◌else◌,
  Map, get, remove, select,
}
use db_backup.Backups.{
  Entry, file, directory, StorageType, local_disk, s3, google_drive, World, is_encrypted_name,
}
use db_backup.Backups.Crypto.{Cipher, is_encrypted_file, decrypt_backup_file}

pub data Refusal : Type 0 where
  not_encrypted no_passphrase wrong_passphrase not_found download_failed : Refusal

-- the file that is answered, whether it is a temporary one, and the disk
pub data Fetched : Type 0 where
  fetched : Entry → Bool → Map Entry → Fetched
  refused : Refusal → Fetched

-- isEncryptedFile, of a path: a directory cannot be read
abbrev pub has_header : Entry → Bool
has_header (file bytes) = is_encrypted_file bytes
has_header directory = false

abbrev pub is_remote : StorageType → Bool
is_remote local_disk = false
is_remote s3 = true
is_remote google_drive = true

abbrev pub on_disk : World → Option Entry
on_disk w =
    if w.row.file_path == "" || w.row.file_path == "pending"
    then none
    else get w.disk w.row.file_path

-- `filter(Boolean)`
abbrev pub non_empty : List String → List String
non_empty = select (λ p. not (p == ""))

module _ (cipher : Cipher) where
  -- the loop over the passphrases, the current one first
  unfoldable pub try_passphrases : List String → List ℕ → Option (List ℕ)
  try_passphrases [] bytes = none
  try_passphrases (p ∷ ps) bytes = elim (decrypt_backup_file cipher p bytes) [
    | some plain ↦ some plain
    | none ↦ try_passphrases ps bytes
  ]

module _ (cipher : Cipher) (in_temp : String → Bool) where
  -- an encrypted file that stands among the temporary ones is removed
  unfoldable pub decrypt_with : List String → String → List ℕ → Map Entry → Fetched
  decrypt_with [] path bytes disk = refused no_passphrase
  decrypt_with (p ∷ ps) path bytes disk = elim (try_passphrases cipher (p ∷ ps) bytes) [
    | none ↦ refused wrong_passphrase
    | some plain ↦ fetched (file plain) true (if in_temp path then remove disk path else disk)
  ]

  unfoldable pub maybe_decrypt : List String → Bool → String → Entry → Map Entry → Fetched
  maybe_decrypt passphrases expected path directory disk =
      if expected then refused not_encrypted else fetched directory true disk
  maybe_decrypt passphrases expected path (file bytes) disk =
      if is_encrypted_file bytes
      then decrypt_with (non_empty passphrases) path bytes disk
      else if expected
      then refused not_encrypted
      else fetched (file bytes) true disk

  unfoldable pub fetch_remote : List String → Bool → World → Fetched
  fetch_remote passphrases expected w = elim w.row.storage_key [
    | none ↦ refused not_found
    | some key ↦
        if key == "" || not (is_remote w.row.storage_type)
        then refused not_found
        else elim (get w.remote key) [
          | none ↦ refused download_failed
          | some e ↦ maybe_decrypt passphrases expected "" e w.disk
        ]
  ]

  -- the names of the row, not the file, say whether it has to be encrypted
  unfoldable pub ensure_local_backup_file : List String → World → Fetched
  ensure_local_backup_file passphrases w =
      let expected = is_encrypted_name w.row.file_name || is_encrypted_name w.row.file_path in
      elim (on_disk w) [
        | none ↦ fetch_remote passphrases expected w
        | some e ↦
            if has_header e
            then maybe_decrypt passphrases expected w.row.file_path e w.disk
            else if expected
            then refused not_encrypted
            else fetched e false w.disk
      ]
