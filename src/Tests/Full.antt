-- ===== src/Tests/Full.antt =====
-- A full run over two tables, one of them without a key.
use db_backup.Prelude.{String, refl, true, none, some, List, [], ◌∷◌, arith, ◌==◌, if◌then◌else◌}
use db_backup.Sync.Values.{Row, null, number}
use db_backup.Sync.TableOrder.Completing.{SameTables}
use db_backup.Sync.Full.{FullConfig, Source, Copied, execute_full_sync}
use db_backup.Sync.Full.Laws.{Copies}
use db_backup.Sync.Full.Tables.{all_to_copy, wanted_tables, execute_full_sync-Copies}

abbrev contents : String → List Row
contents table = (("id", number "1") ∷ []) ∷ (("id", null) ∷ []) ∷ []

abbrev origin : Source
origin = record {
  tables = some ("users" ∷ "notes" ∷ []);
  foreign_keys = some [];
  key_columns = λ table. if table == "users" then some ("id" ∷ []) else some [];
  scan = λ table offset. some (contents table);
  commits = λ before batch. true;
}

abbrev everything : FullConfig
everything = record {
  include_tables = [];
  exclude_tables = [];
  batch_size = 1;
  strict_table_ordering = true;
}

abbrev empty : Copied
empty = record {
  rows = [];
  current_table = none;
  total_rows_synced = 0;
  tables_processed = 0;
  validation_errors = 0;
}

execute_full_sync-Copies_example :
    (out : List String) × SameTables (wanted_tables origin everything) out
    × Copies empty
        (all_to_copy (λ table offset. contents table) 3 origin out)
        (execute_full_sync origin 3 everything empty)
execute_full_sync-Copies_example =
    execute_full_sync-Copies origin (λ table offset. contents table) (λ table. 2) 3 everything empty
      (omega arith) (λ table offset. refl) (λ table offset. refl) (λ table. omega arith)
      (refl, (refl, tt))
