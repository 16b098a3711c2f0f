-- ===== src/Backups.antt =====
-- Backups from the dump to the restore: server/src/queue/backup.queue.ts and restore.queue.ts, and the
-- local and remote copies of server/src/services/storage.service.ts. Files are kept by their path,
-- objects of a remote storage by their key; a file is its bytes.
pub mod Crypto
pub mod Worker
pub mod Attempts
pub mod Fetch
pub mod Restore
pub mod Laws
use Prim.Native.String
use db_backup.Prelude.{ℕ, ◌==◌, Bool, true, false, ◌||◌, Option, List, Map}
use db_backup.Storage.Retention.{BackupStatus}

pub data Entry : Type 0 where
  file : List ℕ → Entry
  directory : Entry

pub data StorageType : Type 0 where
  local_disk s3 google_drive : StorageType

-- the row of a backup, as far as its job and its readers use it
pub record BackupRow : Type 0 where
  pub user_id : String.String
  pub connection_id : Option String.String
  pub status : BackupStatus
  pub progress : ℕ
  pub file_name : String.String
  pub file_path : String.String
  pub file_size : ℕ
  pub checksum : Option String.String
  pub verified : Bool
  pub storage_type : StorageType
  pub storage_key : Option String.String
  pub error : Option String.String

pub record World : Type 0 where
  pub row : BackupRow
  pub disk : Map Entry
  pub remote : Map Entry

-- `text.endsWith(suffix)`
unfoldable pub ends_with : String.String → String.String → Bool
ends_with suffix String.[] = String.[] == suffix
ends_with suffix (String.◌∷◌ c text) = String.◌∷◌ c text == suffix || ends_with suffix text

-- isEncryptedName
unfoldable pub is_encrypted_name : String.String → Bool
unfolding ends_with
is_encrypted_name = ends_with ".enc"
