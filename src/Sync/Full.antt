-- ===== src/Sync/Full.antt =====
-- executeFullSync of server/src/queue/sync/handlers/full-sync.handler.ts: every table is copied by
-- pages (fetchTableRecordsPaginated of server/src/queue/sync/utils/pagination.ts), and every page by
-- batches. The rows and the keys that the source answers are parameters, and so is whether the target
-- commits a batch. The messages of progress are not modelled.
pub mod Laws
pub mod Tables
use db_backup.Prelude.{
  ℕ, zero, suc, ◌+◌, String, Bool, true, false, not, Option, none, some, List, [], ◌∷◌, ◌++◌, map,
  if◌then◌else◌, eqb, length, select, count, includes, take, drop,
}
use db_backup.Sync.Values.{Row, field, insert, Origin, target}
use db_backup.Sync.TableOrder.{Dependency, ordered, strict_error, get_tables_in_dependency_order}
use db_backup.Sync.Validation.{validate_change}
use db_backup.Sync.Incremental.{batches}

abbrev pub full_sync_page_size : ℕ
full_sync_page_size = 10000

pub record FullConfig : Type 0 where
  pub include_tables : List String
  pub exclude_tables : List String
  pub batch_size : ℕ
  pub strict_table_ordering : Bool

pub record Inserted : Type 0 where
  pub table : String
  pub primary_key_values : Row
  pub change_data : Row

-- `scan table offset` are the rows of the table in the order in which the database goes through them
-- for the query at this offset, or `none` where the query throws.
pub record Source : Type 0 where
  pub tables : Option (List String)
  pub foreign_keys : Option (List Dependency)
  pub key_columns : String → Option (List String)
  pub scan : String → ℕ → Option (List Row)
  pub commits : List Inserted → List Inserted → Bool

-- `rows` are the inserts that the target has committed.
pub record Copied : Type 0 where
  pub rows : List Inserted
  pub current_table : Option String
  pub total_rows_synced : ℕ
  pub tables_processed : ℕ
  pub validation_errors : ℕ

pub data FullRun : Type 0 where
  finished : Copied → FullRun
  failed : Copied → FullRun
  stuck : FullRun

infixl 5 ◌and_next◌
abbrev pub ◌and_next◌ : FullRun → (Copied → FullRun) → FullRun
finished p and_next k = k p
failed p and_next k = failed p
stuck and_next k = stuck

-- fetchTableRecordsPaginated, `LIMIT … OFFSET …` without an order
unfoldable pub fetch_table_records_paginated : Source → String → ℕ → ℕ → Option (List Row)
fetch_table_records_paginated db table limit offset = elim (db.scan table offset) [
  | none ↦ none
  | some rows ↦ some (take limit (drop offset rows))
]

-- extractPrimaryKeyFromColumns
unfoldable pub key_of_columns : Row → List String → Row
key_of_columns record_row [] = []
key_of_columns record_row (c ∷ cs) = (c, field record_row c) ∷ key_of_columns record_row cs

abbrev pub insert_of : String → List String → Row → Inserted
insert_of table columns row = record {
  table = table;
  primary_key_values = key_of_columns row columns;
  change_data = row;
}

abbrev pub is_insertable : Inserted → Bool
is_insertable c = (validate_change insert c.primary_key_values (some c.change_data)).valid

module _ (db : Source) where
  unfoldable pub copy_valid : List Inserted → Copied → FullRun
  copy_valid [] p = finished p
  copy_valid (c ∷ cs) p =
      if db.commits p.rows (c ∷ cs)
      then finished (record p {
        rows = p.rows ++ c ∷ cs;
        total_rows_synced = p.total_rows_synced + length (c ∷ cs);
      })
      else failed p

  unfoldable pub copy_batch : List Inserted → Copied → FullRun
  unfolding copy_valid
  copy_batch batch p = copy_valid (select is_insertable batch) (record p {
    validation_errors = p.validation_errors + count (λ c. not (is_insertable c)) batch;
  })

  unfoldable pub copy_batches : List (List Inserted) → Copied → FullRun
  copy_batches [] p = finished p
  copy_batches (batch ∷ rest) p = copy_batch batch p and_next copy_batches rest

  unfoldable pub copy_page : ℕ → List Inserted → Copied → FullRun
  copy_page size changes p = elim (batches (suc (length changes)) size changes) [
    | none ↦ stuck
    | some bs ↦ copy_batches bs p
  ]

  -- the `do … while` loop over the pages of `limit` rows, on fuel
  unfoldable pub copy_pages : ℕ → ℕ → ℕ → String → List String → ℕ → Copied → FullRun
  unfolding fetch_table_records_paginated
  copy_pages zero size limit table columns offset p = stuck
  copy_pages (suc fuel) size limit table columns offset p =
      elim (fetch_table_records_paginated db table limit offset) [
        | none ↦ failed p
        | some [] ↦ finished p
        | some (row ∷ rows) ↦
            copy_page size (map (insert_of table columns) (row ∷ rows)) p and_next λ q.
            elim (eqb (length (row ∷ rows)) limit) [
              | true ↦ copy_pages fuel size limit table columns (offset + length (row ∷ rows)) q
              | false ↦ finished q
            ]
      ]

  -- a table without a key is skipped, and counted
  unfoldable pub copy_table : ℕ → ℕ → ℕ → String → Copied → FullRun
  copy_table fuel size limit table p =
      let entered = record p { current_table = some table } in
      elim (db.key_columns table) [
        | none ↦ failed entered
        | some [] ↦ finished (record entered { tables_processed = p.tables_processed + 1 })
        | some (c ∷ cs) ↦ copy_pages fuel size limit table (c ∷ cs) 0 entered and_next λ q.
            finished (record q { tables_processed = q.tables_processed + 1 })
      ]

  unfoldable pub copy_tables : ℕ → ℕ → ℕ → List String → Copied → FullRun
  unfolding copy_table
  copy_tables fuel size limit [] p = finished p
  copy_tables fuel size limit (table ∷ tables) p =
      copy_table fuel size limit table p and_next copy_tables fuel size limit tables

  unfoldable pub copy_ordered : ℕ → FullConfig → List String → Copied → FullRun
  unfolding copy_tables
  copy_ordered fuel config tables p =
      elim (get_tables_in_dependency_order db.foreign_keys config.strict_table_ordering
        (select (λ t. not (includes config.exclude_tables t)) tables)) [
          | strict_error ↦ failed p
          | ordered none ↦ stuck
          | ordered (some out) ↦ copy_tables fuel config.batch_size full_sync_page_size out p
        ]

  unfoldable pub execute_full_sync : ℕ → FullConfig → Copied → FullRun
  unfolding copy_ordered
  execute_full_sync fuel config p = elim config.include_tables [
    | t ∷ ts ↦ copy_ordered fuel config (t ∷ ts) p
    | [] ↦ elim db.tables [ none ↦ failed p | some tables ↦ copy_ordered fuel config tables p ]
  ]
